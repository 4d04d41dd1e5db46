-- ===== src/Bitcask/Client.antt =====
-- A client of the class Bitcask that makes one call after the other, closes the database and opens it
-- again among them, and what a map with a log would answer.
use memkvin_c.Base.{
  Key, Value, Bool, true, false, not, ◌||◌, ◌&&◌, ◌==◌, List, [], ◌∷◌, Option, none, some, ℕ, suc,
  tombstone,
}
use memkvin_c.Crc.{Crc32c}
use memkvin_c.HashMap.{HashMap}
use memkvin_c.Bitcask.Engine.{Write, visible?}
use memkvin_c.Bitcask.View.{View, update}
use memkvin_c.Bitcask.Restore.{Outcome, done, throws, diverges}
use memkvin_c.Bitcask.Logs.{Logs, add_write, view_of}
use memkvin_c.Bitcask.Shutdown.{destroy}
use memkvin_c.Bitcask.Api
use memkvin_c.Bitcask.Api.{Database}

-- `reopen` is the destructor, and Create with the same setting on the disk that it leaves.
pub data Call : Type 0 where
  put : Key → Value → Call
  delete : Key → Call
  get : Key → Call
  reopen : Call

pub data Reply : Type 0 where
  returned : Reply
  deleted : Bool → Reply
  found : Option Value → Reply

module _ (c : Crc32c) {hash : HashMap} where
  abbrev pub created : Outcome (Database hash) → Option (Database hash × Reply)
  created (done s) = some (s, returned)
  created (throws x) = none
  created diverges = none

  -- `none` is a fault, a wait without end or an exception.
  unfoldable pub call : Database hash → Call → Option (Database hash × Reply)
  call s (put key value) = elim (Api.put c s key value) [
    | none ↦ none
    | some s' ↦ some (s', returned)
  ]
  call s (delete key) = elim (Api.delete c s key) [
    | none ↦ none
    | some (b, s') ↦ some (s', deleted b)
  ]
  call s (get key) = elim (Api.get s key) [ none ↦ none | some (v, s') ↦ some (s', found v) ]
  call s reopen = elim (destroy c s) [ none ↦ none | some d ↦ created (Api.create c s.0.setting d) ]

  unfoldable pub calls : Database hash → List Call → Option (Database hash × List Reply)
  calls s [] = some (s, [])
  calls s (x ∷ xs) = elim (call s x) [
    | none ↦ none
    | some (s', reply) ↦ elim (calls s' xs) [
      | none ↦ none
      | some (s'', replies) ↦ some (s'', reply ∷ replies)
    ]
  ]

abbrev pub is_there : Option Value → Bool
is_there none = false
is_there (some _) = true

-- The map behind a call, and the reply. A key that was deleted once is there, with the tombstone.
abbrev pub behind : View → Call → View
behind m (put key value) = update m key value
behind m (delete key) = elim (m key) [ none ↦ m | some _ ↦ update m key tombstone ]
behind m (get key) = m
behind m reopen = m

abbrev pub answer : View → Call → Reply
answer m (put key value) = returned
answer m (delete key) = deleted (is_there (m key))
answer m (get key) = found (visible? (m key))
answer m reopen = returned

unfoldable pub answers : View → List Call → List Reply
answers m [] = []
answers m (x ∷ xs) = answer m x ∷ answers (behind m x) xs

unfoldable pub behind_all : View → List Call → View
behind_all m [] = m
behind_all m (x ∷ xs) = behind_all (behind m x) xs

-- The logs of the files, and the number of the next promise.
pub record Story : Type 0 where
  pub logs : Logs
  pub next : ℕ

abbrev pub write_of : Key → Value → ℕ → Write
write_of key value next = record { key = key; value = value; promise = next }

-- One more write.
abbrev pub told : ℕ → Story → Key → Value → Story
told limit story key value = record {
  logs = add_write limit story.logs (write_of key value story.next);
  next = suc story.next;
}

-- A Delete that finds a value or none.
abbrev pub told_delete : ℕ → Story → Key → Option Value → Story
told_delete limit story key none = story
told_delete limit story key (some _) = told limit story key tombstone

-- The logs behind a call.
unfoldable pub tell : ℕ → Story → Call → Story
tell limit story (put key value) = told limit story key value
tell limit story (delete key) = told_delete limit story key (view_of story.logs key)
tell limit story (get key) = story
tell limit story reopen = record story { next = 0 }

unfoldable pub tell_all : ℕ → Story → List Call → Story
tell_all limit story [] = story
tell_all limit story (x ∷ xs) = tell_all limit (tell limit story x) xs

abbrev pub is_reopen : Call → Bool
is_reopen reopen = true
is_reopen (put key value) = false
is_reopen (delete key) = false
is_reopen (get key) = false

-- Behind a reopen no call rotates the active file. `reopened` is whether there was one before. A
-- rotation would leave hints whose offsets tellp gave on a stream that was opened with std::ios::app,
-- and these are not the places in the file with every library.
unfoldable pub rests : ℕ → Bool → Story → List Call → Bool
rests limit reopened story [] = true
rests limit reopened story (x ∷ xs) =
    let story' = tell limit story x in
    let rest = rests limit (reopened || is_reopen x) story' xs in
    (not reopened || story'.logs.last == story.logs.last) && rest
