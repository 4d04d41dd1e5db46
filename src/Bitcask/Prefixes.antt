-- ===== src/Bitcask/Prefixes.antt =====
-- The writes that are left of the last file, where its end was lost, are those of the first calls.
use memkvin_c.Base.{
  Key, Value, ◌≡◌, ◌∙◌, refl, ap, ap₂, subst, sym, Bool-cases, inl, inr, ◌⊎◌, List, [], ◌∷◌, ◌++◌,
  append_assoc, append-nil, Option, none, some, ℕ, suc, ◌≤◌, length, length-append, take, take-all,
  take-append_of_le, ltb, arith, tombstone,
}
use memkvin_c.Bitcask.Engine.{Write}
use memkvin_c.Bitcask.View.{View, apply_writes, empty_view}
use memkvin_c.Bitcask.Logs.{
  Logs, apply_files, apply_files_congr, view_of, add_write, add_write-below, add_write-past,
  value_at, appended_to, set_log, set_log_self, set_log_other,
}
use memkvin_c.Bitcask.Client.{
  Call, put, delete, get, reopen, behind, behind_all, Story, told_delete, tell, tell_all, write_of,
}
use memkvin_c.Bitcask.Sees.{view_of-tell}

-- The map of the first n calls is that of all files before the last, and `kept` behind them.
pub record FirstCalls (xs : List Call) (logs : Logs) (kept : List Write) : Type 0 where
  pub n : ℕ
  pub few : n ≤ length xs
  pub same :
      apply_writes (apply_files logs.writes logs.last) kept ≡ behind_all empty_view (take n xs)

-- Whatever is lost of the last file.
abbrev pub CutsToCalls : List Call → Logs → Type 0
CutsToCalls xs logs =
    (kept lost : List Write) → kept ++ lost ≡ logs.writes logs.last → FirstCalls xs logs kept

pub nothing_before : (kept lost : List Write) → kept ++ lost ≡ [] → kept ≡ []
nothing_before [] lost h = refl
nothing_before (a ∷ kept) lost h = absurd (cc h)

-- A list is cut behind its last element or before it.
last_cut :
    (kept lost ws : List Write) (w : Write)
    → kept ++ lost ≡ ws ++ w ∷ []
    → (kept ≡ ws ++ w ∷ []) ⊎ ((lost' : List Write) × (kept ++ lost' ≡ ws))
last_cut [] lost ws w h = inr (ws, refl)
last_cut (a ∷ kept) lost [] w h = inl (rw (nothing_before kept lost (cc h)) (cc h))
last_cut (a ∷ kept) lost (b ∷ ws) w h = elim (last_cut kept lost ws w (cc h)) [
  | inl e ↦ inl (ap₂ (λ x l. x ∷ l) (cc h) e)
  | inr (lost', e) ↦ inr (lost', ap₂ (λ x l. x ∷ l) (cc h) e)
]

behind_all-append :
    (xs ys : List Call) (m : View) → behind_all m (xs ++ ys) ≡ behind_all (behind_all m xs) ys
unfolding behind_all
behind_all-append [] ys m = refl
behind_all-append (x ∷ xs) ys m = behind_all-append xs ys (behind m x)

-- Nothing is lost.
all_kept :
    (xs : List Call) (logs : Logs) (kept : List Write)
    → view_of logs ≡ behind_all empty_view xs
    → kept ≡ logs.writes logs.last
    → FirstCalls xs logs kept
all_kept xs logs kept view e = record {
  n = length xs;
  few = omega arith;
  same =
      ap (apply_writes (apply_files logs.writes logs.last)) e
      ∙ view
      ∙ ap (behind_all empty_view) (sym (take-all (length xs) xs (omega arith)));
}

-- One more call that writes nothing.
FirstCalls-more :
    (xs ys : List Call) (logs : Logs) (kept : List Write)
    → FirstCalls xs logs kept
    → FirstCalls (xs ++ ys) logs kept
FirstCalls-more xs ys logs kept h = record {
  n = h.n;
  few = omega (arith, h.few, length-append xs ys);
  same = h.same ∙ ap (behind_all empty_view) (sym (take-append_of_le h.n xs ys h.few));
}

module _ (limit : ℕ) (xs ys : List Call) (logs : Logs) (w : Write)
    (cuts : CutsToCalls xs logs) where
  -- The write stands in the active file.
  cuts_below :
      (let logs' : Logs = record { last = logs.last; writes = appended_to logs w } in
        view_of logs' ≡ behind_all empty_view (xs ++ ys) → CutsToCalls (xs ++ ys) logs')
  cuts_below view kept lost h =
      let logs' : Logs = record { last = logs.last; writes = appended_to logs w } in
      let end = set_log_self logs.writes logs.last (logs.writes logs.last ++ w ∷ []) in
      elim (last_cut kept lost (logs.writes logs.last) w (h ∙ end)) [
        | inl e ↦ all_kept (xs ++ ys) logs' kept view (e ∙ sym end)
        | inr (lost', e) ↦
            let f = FirstCalls-more xs ys logs kept (cuts kept lost' e) in
            record {
              n = f.n;
              few = f.few;
              same =
                  ap (λ m. apply_writes m kept)
                    (apply_files_congr (appended_to logs w) logs.writes logs.last (λ i less.
                      set_log_other logs.writes logs.last i _ (λ p. absurd (omega arith))))
                  ∙ f.same;
            }
      ]

  -- The file is closed behind it.
  cuts_past :
      (let logs' : Logs = record {
        last = suc logs.last;
        writes = set_log (appended_to logs w) (suc logs.last) [];
      } in
        view_of logs' ≡ behind_all empty_view (xs ++ ys) → CutsToCalls (xs ++ ys) logs')
  cuts_past view kept lost h =
      let end = set_log_self (appended_to logs w) (suc logs.last) [] in
      all_kept (xs ++ ys) _ kept view (nothing_before kept lost (h ∙ end) ∙ sym end)

  cuts-add_write :
      view_of (add_write limit logs w) ≡ behind_all empty_view (xs ++ ys)
      → CutsToCalls (xs ++ ys) (add_write limit logs w)
  cuts-add_write = elim (Bool-cases (ltb (value_at logs w) limit)) [
    | inl e ↦
        subst (λ l. view_of l ≡ behind_all empty_view (xs ++ ys) → CutsToCalls (xs ++ ys) l)
          (sym (add_write-below logs w limit e)) cuts_below
    | inr e ↦
        subst (λ l. view_of l ≡ behind_all empty_view (xs ++ ys) → CutsToCalls (xs ++ ys) l)
          (sym (add_write-past logs w limit e)) cuts_past
  ]

module _ (limit : ℕ) where
  cuts-told_delete :
      (xs ys : List Call) (story : Story) (key : Key) (o : Option Value)
      → CutsToCalls xs story.logs
      → view_of (told_delete limit story key o).logs ≡ behind_all empty_view (xs ++ ys)
      → CutsToCalls (xs ++ ys) (told_delete limit story key o).logs
  cuts-told_delete xs ys story key none h view =
      λ kept lost e. FirstCalls-more xs ys story.logs kept (h kept lost e)
  cuts-told_delete xs ys story key (some _) h view =
      cuts-add_write limit xs ys story.logs (write_of key tombstone story.next) h view

  cuts-tell :
      (xs : List Call) (story : Story) (x : Call)
      → CutsToCalls xs story.logs
      → view_of (tell limit story x).logs ≡ behind_all empty_view (xs ++ x ∷ [])
      → CutsToCalls (xs ++ x ∷ []) (tell limit story x).logs
  unfolding tell
  cuts-tell xs story (put key value) h view =
      cuts-add_write limit xs _ story.logs (write_of key value story.next) h view
  cuts-tell xs story (delete key) h view =
      cuts-told_delete xs _ story key (view_of story.logs key) h view
  cuts-tell xs story (get key) h view =
      λ kept lost e. FirstCalls-more xs _ story.logs kept (h kept lost e)
  cuts-tell xs story reopen h view =
      λ kept lost e. FirstCalls-more xs _ story.logs kept (h kept lost e)

  pub cuts-tell_all :
      (ys xs : List Call) (story : Story)
      → view_of story.logs ≡ behind_all empty_view xs
      → CutsToCalls xs story.logs
      → CutsToCalls (xs ++ ys) (tell_all limit story ys).logs
  unfolding tell_all behind_all
  cuts-tell_all [] xs story view h = subst (λ l. CutsToCalls l story.logs) (sym (append-nil xs)) h
  cuts-tell_all (y ∷ ys) xs story view h =
      let view' : view_of (tell limit story y).logs ≡ behind_all empty_view (xs ++ y ∷ []) =
        view_of-tell limit story y
        ∙ ap (λ m. behind m y) view
        ∙ sym (behind_all-append xs (y ∷ []) empty_view) in
      subst (λ l. CutsToCalls l (tell_all limit (tell limit story y) ys).logs)
        (append_assoc xs (y ∷ []) ys)
        (cuts-tell_all ys (xs ++ y ∷ []) (tell limit story y) view' (cuts-tell xs story y h view'))
