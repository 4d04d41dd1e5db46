-- ===== src/Bitcask/Frame.antt =====
-- What an engine stands for does not depend on its queue and its promises.
use memkvin_c.Base.{Key, Value, inl, inr, List, Option, none, some, ℕ}
use memkvin_c.HashMap.{HashMap}
use memkvin_c.RecordMap.{Hint}
use memkvin_c.Stream.{Stream}
use memkvin_c.Bitcask.Engine.{Engine, Write}
use memkvin_c.Bitcask.View.{View, Shows, Represents}

module _ {hash : HashMap} (e : Engine hash) (ws : List Write) (n : ℕ) (tickets : List ℕ) where
  abbrev framed : Engine hash
  framed = record e { writes = ws; next_promise = n; resolved = tickets }

  pub framed-Shows :
      (active : Stream) (k : Key) (o : Option Hint) (x : Option Value)
      → Shows e active k o x
      → Shows framed active k o x
  framed-Shows active k none x h = h
  framed-Shows active k (some hint) x (v, q, inl a) =
      (v, q, inl (record { fd = a.fd; cached = a.cached; in_file = a.in_file }))
  framed-Shows active k (some hint) x (v, q, inr st) =
      (v, q, inr (record { stream = st.stream; found = st.found; in_file = st.in_file }))

  unfoldable pub reframe : {m : View} → Represents e m → Represents framed m
  reframe rep = record {
    active = rep.active;
    stored = record {
      file = rep.stored.file;
      appending = rep.stored.appending;
      is_open = rep.stored.is_open;
      path = rep.stored.path;
      few = rep.stored.few;
      fresh = rep.stored.fresh;
    };
    shows = λ k. framed-Shows rep.active k _ _ (rep.shows k);
  }
