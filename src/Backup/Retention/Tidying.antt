-- ===== src/Backup/Retention/Tidying.antt =====
-- A run of `retireOldBackups` deletes old backups only.
use cartyx_infrastructure.Base.{
  ℕ, zero, suc, ◌≤◌, Text, List, [], ◌∷◌, ◌++◌, All, Bool, true, false, Option, none, some, ◌≡◌,
  ◌⊎◌, inl, inr, refl, if◌then◌else◌, drop_last, arith,
}
use cartyx_infrastructure.Script.{
  Stop, diverged, Outcome, ok, Script, World, after_call, call, throw_if, and_then,
}
use cartyx_infrastructure.Script.Post.{
  Post, returned, stopped, weaken-Post, and_then-Post, call-Post,
}
use cartyx_infrastructure.Script.Discipline.{Did, Keeps, latest, earlier}
use cartyx_infrastructure.Cluster.Documents.{StoredObject}
use cartyx_infrastructure.Cluster.Request.{Answer, Environment, list_objects, delete_object}
use cartyx_infrastructure.Backup.Retention.{
  markers, latest_first, more_pages, list_all, keeps, week_of, delete_backup, retire,
  retire_old_backups,
}
use cartyx_infrastructure.Backup.Retention.Scope.{fresh}
use cartyx_infrastructure.Backup.Retention.Policy.{
  All-append, All-markers, All-latest_first, All-Among, IsListed, IsListed-kept, IsOld, IsOld-later,
  IsTidy, IsTidy-later, not_kept-IsOld,
}

module _ {V : Type 0} (env : Environment) (prefix : Text) where
  -- What a part of the retention leaves: it is tidy, and nothing is lost.
  abbrev Tidied : {B : Type 0} → World Answer V → B → World Answer V → Type 0
  Tidied w _ w' = IsTidy w'.time w'.log × Keeps w.log w'.log

  abbrev Left : Stop → World Answer V → Type 0
  Left h w = IsTidy w.time w.log

  abbrev Known : List StoredObject → World Answer V → Type 0
  Known entries w = All (λ x. IsListed x w.log) entries

  Known-kept :
      (entries : List StoredObject) (w w' : World Answer V)
      → Keeps w.log w'.log
      → Known entries w
      → Known entries w'
  Known-kept [] w w' k a = tt
  Known-kept (x ∷ entries) w w' k (m, a) = (IsListed-kept x k m, Known-kept entries w w' k a)

  delete-Tidied :
      (key : Text) (e : StoredObject) (w : World Answer V)
      → (key ≡ e.key) ⊎ (key ≡ drop_last 5 e.key)
      → IsOld w.time e
      → IsListed e w.log
      → IsTidy w.time w.log
      → Post
          (λ _ w'. IsTidy w'.time w'.log × IsOld w'.time e × Keeps w.log w'.log)
          Left
          (call env (delete_object key) w)
  unfolding after_call
  delete-Tidied key e w which x m t =
      let after : ℕ = (after_call env (delete_object key) w).time in
      let grown : w.time ≤ after = omega arith in
      let x' = IsOld-later w.time after e grown x in
      let t' = IsTidy-later w.time after w.log grown t in
      call-Post env (delete_object key) w (λ _ _. (((e, which, x', m), t'), x', λ q a d. earlier d))
        (λ _ _. ((e, which, x', m), t'))

  guarded :
      (b : Bool) (message : Text) (w : World Answer V)
      → IsTidy w.time w.log
      → Post (λ _ w'. w' ≡ w) Left (throw_if b message w)
  guarded true message w t = stopped t
  guarded false message w t = returned refl

  delete_backup-Tidied :
      (e : StoredObject) (w : World Answer V)
      → IsOld w.time e
      → IsListed e w.log
      → IsTidy w.time w.log
      → Post (Tidied w) Left (delete_backup env prefix e w)
  unfolding delete_backup
  delete_backup-Tidied e w x m t = and_then-Post (guarded _ _ w t) λ _ w0 same. rw same (
      and_then-Post (delete-Tidied e.key e w (inl refl) x m t) λ _ w1 (t1, x1, k1).
        weaken-Post (delete-Tidied (drop_last 5 e.key) e w1 (inr refl) x1 (IsListed-kept e k1 m) t1)
          (λ _ _ (t2, _, k2). (t2, λ q a d. k2 q a (k1 q a d))) (λ _ _ p. p))

  retire-Tidied :
      (weeks : List ℕ) (entries : List StoredObject) (w : World Answer V)
      → Known entries w
      → IsTidy w.time w.log
      → Post (λ _. Left diverged) Left (retire env prefix weeks entries w)
  unfolding retire and_then
  retire-Tidied weeks [] w a t = returned t
  retire-Tidied weeks (e ∷ entries) w (m, a) t =
      and_then-Post (kept_or_deleted (keeps w.time weeks e) refl) λ _ w1 (t1, k1).
        retire-Tidied (week_of e ∷ weeks) entries w1 (Known-kept entries w w1 k1 a) t1
    where
      kept_or_deleted :
          (b : Bool)
          → keeps w.time weeks e ≡ b
          → Post (Tidied w) Left ((if b then (λ u. (ok tt, u)) else delete_backup env prefix e) w)
      kept_or_deleted true k = returned (t, λ q a' d. d)
      kept_or_deleted false k = delete_backup-Tidied e w (not_kept-IsOld w.time weeks e k) m t

  listed :
      (token : Option Text) (w : World Answer V)
      → IsTidy w.time w.log
      → Post
          (λ page w'.
            IsTidy w'.time w'.log
            × Keeps w.log w'.log
            × Did (list_objects prefix token) page w'.log)
          Left
          (call env (list_objects prefix token) w)
  unfolding after_call
  listed token w t =
      let after : ℕ = (after_call env (list_objects prefix token) w).time in
      let t' = IsTidy-later w.time after w.log (omega arith) t in
      call-Post env (list_objects prefix token) w
        (λ page e. (t', (λ q a d. earlier d), rw e latest)) (λ _ _. t')

  -- All that was found was listed.
  abbrev Found : List StoredObject → World Answer V → Type 0
  Found entries w = IsTidy w.time w.log × Known entries w

  next_page :
      (rounds : ℕ) (next : Option Text) (found : List StoredObject) (w : World Answer V)
      → ((t : Text) → Post Found Left (list_all env prefix rounds (some t) found w))
      → Found found w
      → Post Found Left (
          elim next as (λ _. Script (World Answer V) (List StoredObject)) [
            | none ↦ (λ u. (ok found, u))
            | some t ↦ list_all env prefix rounds (some t) found
          ]
            w)
  next_page rounds none found w rec f = returned f
  next_page rounds (some token) found w rec f = rec token

  list_all-Found :
      (rounds : ℕ) (token : Option Text) (entries : List StoredObject) (w : World Answer V)
      → Found entries w
      → Post Found Left (list_all env prefix rounds token entries w)
  unfolding list_all
  list_all-Found zero token entries w f = stopped f.0
  list_all-Found (suc rounds) token entries w f =
      and_then-Post (listed token w f.0) λ page w1 (t1, k1, d1).
        let known : Known (entries ++ page.contents) w1 =
          All-append (λ x. IsListed x w1.log) entries page.contents (Known-kept entries w w1 k1 f.1)
            (All-Among (λ x. IsListed x w1.log) page.contents
              (λ x m. (prefix, token, page, d1, m))) in
        next_page rounds (more_pages page) (entries ++ page.contents) w1
          (λ u. list_all-Found rounds (some u) (entries ++ page.contents) w1 (t1, known))
          (t1, known)

  retire_old_backups-Left :
      (rounds : ℕ) (w : World Answer V)
      → IsTidy w.time w.log
      → Post (λ _. Left diverged) Left (retire_old_backups env prefix rounds w)
  unfolding retire_old_backups
  retire_old_backups-Left rounds w t =
      and_then-Post (list_all-Found rounds none [] w (t, tt)) λ entries w1 (t1, known).
        retire-Tidied [] (latest_first (markers entries)) w1
          (All-latest_first (λ x. IsListed x w1.log) (markers entries)
            (All-markers (λ x. IsListed x w1.log) entries known))
          t1

-- At the end of the retention, however it ends, each object that it deleted is the marker or the
-- archive of an entry that a page of the listing had shown before, and that is over 14 days old.
pub retire_old_backups-IsTidy :
    (env : Environment) (prefix : Text) (rounds now : ℕ)
    → let w : World Answer (Unit {0}) = (retire_old_backups env prefix rounds (fresh now)).1 in
      IsTidy w.time w.log
retire_old_backups-IsTidy env prefix rounds now =
    tidied (retire_old_backups-Left env prefix rounds (fresh now) tt)
  where
    tidied :
        {end : Outcome (Unit {0}) × World Answer (Unit {0})}
        → Post (λ _. Left env prefix diverged) (Left env prefix) end
        → IsTidy end.1.time end.1.log
    tidied (returned t) = t
    tidied (stopped t) = t
