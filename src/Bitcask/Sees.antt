-- ===== src/Bitcask/Sees.antt =====
-- What a client that makes one call after the other sees.
use memkvin_c.Base.{
  Bytes, Key, Value, ◌≡◌, ◌∙◌, refl, ap, List, [], ◌∷◌, ◌++◌, Option, none, some, ℕ, b_slash,
  tombstone,
}
use memkvin_c.Crc.{Crc32c}
use memkvin_c.HashMap.{HashMap}
use memkvin_c.Setting.{Setting, get_db_path, get_max_file_size}
use memkvin_c.Bitcask.View.{View, update}
use memkvin_c.Bitcask.Logs.{add_writes, view_of, view_of-add_writes}
use memkvin_c.Bitcask.Fitting.{AllFit, AllFit-front}
use memkvin_c.Bitcask.Api
use memkvin_c.Bitcask.Api.{Database}
use memkvin_c.Bitcask.Client.{
  Call, put, delete, get, reopen, returned, deleted, found, call, calls, created, behind, answer,
  answers, behind_all, Story, told, told_delete, tell, tell_all, write_of,
}
use memkvin_c.Bitcask.Idle.{IsSound, put-IsSound, delete-IsSound}
use memkvin_c.Bitcask.Sound.{get-IsSound, reopen-IsSound}

-- The logs fit at the end, so they did before.
module _ (limit : ℕ) where
  AllFit-told :
      (story : Story) (key : Key) (value : Value)
      → AllFit (told limit story key value).logs
      → AllFit story.logs
  unfolding add_writes
  AllFit-told story key value h =
      AllFit-front limit [] (write_of key value story.next ∷ []) story.logs h

  AllFit-told_delete :
      (story : Story) (key : Key) (o : Option Value)
      → AllFit (told_delete limit story key o).logs
      → AllFit story.logs
  AllFit-told_delete story key none h = h
  AllFit-told_delete story key (some _) h = AllFit-told story key tombstone h

  AllFit-tell : (story : Story) (x : Call) → AllFit (tell limit story x).logs → AllFit story.logs
  unfolding tell
  AllFit-tell story (put key value) h = AllFit-told story key value h
  AllFit-tell story (delete key) h = AllFit-told_delete story key (view_of story.logs key) h
  AllFit-tell story (get key) h = h
  AllFit-tell story reopen h = h

  AllFit-tell_all :
      (xs : List Call) (story : Story) → AllFit (tell_all limit story xs).logs → AllFit story.logs
  unfolding tell_all
  AllFit-tell_all [] story h = h
  AllFit-tell_all (x ∷ xs) story h = AllFit-tell story x (AllFit-tell_all xs (tell limit story x) h)

  -- The map of the logs is the one that the calls lead to.
  view_of-told :
      (story : Story) (key : Key) (value : Value)
      → view_of (told limit story key value).logs ≡ update (view_of story.logs) key value
  unfolding add_writes
  view_of-told story key value =
      view_of-add_writes limit (write_of key value story.next ∷ []) story.logs

  view_of-told_delete :
      (story : Story) (key : Key) (o : Option Value)
      → view_of (told_delete limit story key o).logs ≡ elim o as (λ _. View) [
        | none ↦ view_of story.logs
        | some _ ↦ update (view_of story.logs) key tombstone
      ]
  view_of-told_delete story key none = refl
  view_of-told_delete story key (some _) = view_of-told story key tombstone

  pub view_of-tell :
      (story : Story) (x : Call) → view_of (tell limit story x).logs ≡ behind (view_of story.logs) x
  unfolding tell
  view_of-tell story (put key value) = view_of-told story key value
  view_of-tell story (delete key) = view_of-told_delete story key (view_of story.logs key)
  view_of-tell story (get key) = refl
  view_of-tell story reopen = refl

module _ (c : Crc32c) {hash : HashMap} (setting : Setting ℕ) (dir : Bytes)
    (ending : get_db_path setting ≡ dir ++ b_slash ∷ []) where
  call-IsSound :
      (s : Database hash) (story : Story) (x : Call)
      → IsSound c setting dir ending s story
      → AllFit (tell (get_max_file_size setting) story x).logs
      → (s' : Database hash) × (call c s x ≡ some (s', answer (view_of story.logs) x))
        × IsSound c setting dir ending s' (tell (get_max_file_size setting) story x)
  unfolding call tell
  call-IsSound (e, pc) story (put key value) h fit =
      let (e', p, h') = put-IsSound c setting dir ending e pc story key value h fit in
      (_, λ i. elim (p i) [ none ↦ none | some s' ↦ some (s', returned) ], h')
  call-IsSound (e, pc) story (delete key) h fit =
      let (s', p, h') = delete-IsSound c setting dir ending e pc story key h fit in
      (s', λ i. elim (p i) [ none ↦ none | some (b, s') ↦ some (s', deleted b) ], h')
  call-IsSound (e, pc) story (get key) h fit =
      let (s', p, h') = get-IsSound c setting dir ending e pc story key h in
      (s', λ i. elim (p i) [ none ↦ none | some (v, s') ↦ some (s', found v) ], h')
  call-IsSound (e, pc) story reopen h fit =
      let (d, p, s', q, h') = reopen-IsSound c setting dir ending e pc story h fit in
      (
        s',
        (λ i. elim (p i) [ none ↦ none | some d ↦ created c (Api.create c e.setting d) ])
            ∙ ap (created c) q,
        h',
      )

  pub client_sees_map :
      (xs : List Call) (s : Database hash) (story : Story)
      → IsSound c setting dir ending s story
      → AllFit (tell_all (get_max_file_size setting) story xs).logs
      → (s' : Database hash) × (calls c s xs ≡ some (s', answers (view_of story.logs) xs))
        × IsSound c setting dir ending s' (tell_all (get_max_file_size setting) story xs)
        × (view_of (tell_all (get_max_file_size setting) story xs).logs
            ≡ behind_all (view_of story.logs) xs)
  unfolding calls answers behind_all tell_all
  client_sees_map [] s story h fit = (s, refl, h, refl)
  client_sees_map (x ∷ xs) s story h fit =
      let limit = get_max_file_size setting in
      let story1 = tell limit story x in
      let (s1, p, h1) = call-IsSound s story x h (AllFit-tell_all limit xs story1 fit) in
      let (s2, q, h2, view) = client_sees_map xs s1 story1 h1 fit in
      let same = view_of-tell limit story x in
      (
        s2,
        (λ i. elim (p i) [
          | none ↦ none
          | some (s', reply) ↦ elim (calls c s' xs) [
            | none ↦ none
            | some (s'', replies) ↦ some (s'', reply ∷ replies)
          ]
        ])
            ∙ (λ i. elim (q i) [
              | none ↦ none
              | some (s'', replies) ↦ some (s'', answer (view_of story.logs) x ∷ replies)
            ])
            ∙ ap (λ m. some (s2, answer (view_of story.logs) x ∷ answers m xs)) same,
        h2,
        view ∙ ap (λ m. behind_all m xs) same,
      )
