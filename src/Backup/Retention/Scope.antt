-- ===== src/Backup/Retention/Scope.antt =====
-- What `retireOldBackups` may delete.
use cartyx_infrastructure.Base.{
  ℕ, zero, suc, Text, text, List, [], ◌∷◌, ◌++◌, All, Bool, true, false, not, Option, none, some,
  ◌≡◌, ◌⊎◌, inl, inr, refl, Bool-cases, if◌then◌else◌, starts_with, ends_with, drop_last, take,
  length, ◌-◌, leb, true_of_guard, both_of_guard, arith,
}
use cartyx_infrastructure.Script.{Log, Settled, called, Stop, Outcome, ok, Script, World}
use cartyx_infrastructure.Script.Post.{Post, returned, stopped, weaken-Post, and_then-Post}
use cartyx_infrastructure.Script.Discipline.{
  Did, Obeys, Kept, just-call, after-call, after-throw_if, after-gets, Obeys-append,
}
use cartyx_infrastructure.Cluster.Documents.{StoredObject}
use cartyx_infrastructure.Cluster.Request.{
  Request, Answer, Environment, list_objects, delete_object,
}
use cartyx_infrastructure.Backup.Retention.{
  markers, place, latest_first, more_pages, list_all, keeps, week_of, delete_backup, retire,
  retire_old_backups,
}

abbrev pub IsMarkerKey : StoredObject → Type 0
IsMarkerKey e = ends_with e.key (text ".tar.gz.json") ≡ true

markers-IsMarkerKey : (entries : List StoredObject) → All IsMarkerKey (markers entries)
unfolding markers
markers-IsMarkerKey [] = tt
markers-IsMarkerKey (e ∷ entries) = elim (Bool-cases (ends_with e.key (text ".tar.gz.json"))) [
  | inl h ↦ rw h (h, markers-IsMarkerKey entries)
  | inr h ↦ rw h (markers-IsMarkerKey entries)
]

place-IsMarkerKey :
    (e : StoredObject) (xs : List StoredObject)
    → IsMarkerKey e
    → All IsMarkerKey xs
    → All IsMarkerKey (place e xs)
unfolding place
place-IsMarkerKey e [] m t = (m, tt)
place-IsMarkerKey e (x ∷ xs) m (h, t) = elim (Bool-cases (leb x.last_modified e.last_modified)) [
  | inl later ↦ rw later (m, (h, t))
  | inr sooner ↦ rw sooner (h, place-IsMarkerKey e xs m t)
]

latest_first-IsMarkerKey :
    (xs : List StoredObject) → All IsMarkerKey xs → All IsMarkerKey (latest_first xs)
unfolding latest_first
latest_first-IsMarkerKey [] t = tt
latest_first-IsMarkerKey (x ∷ xs) (h, t) =
    place-IsMarkerKey x (latest_first xs) h (latest_first-IsMarkerKey xs t)

-- What begins a beginning begins the whole.
starts_with-take : (n : ℕ) (s p : Text) → starts_with (take n s) p ≡ true → starts_with s p ≡ true
unfolding starts_with
starts_with-take n s [] h = refl
starts_with-take zero s (b ∷ p) h = ground arith
starts_with-take (suc n) [] (b ∷ p) h = ground arith
starts_with-take (suc n) (a ∷ s) (b ∷ p) h = ground (arith, starts_with-take n s p)

module _ (prefix : Text) where
  -- A deletion is of a completion marker under the prefix, or of an archive under the prefix whose
  -- marker's deletion was acknowledged.
  abbrev pub Allowed : Request → Log Answer → Type 0
  Allowed (delete_object key) log =
      (starts_with key prefix ≡ true)
      × ((ends_with key (text ".tar.gz.json") ≡ true)
          ⊎ ((e : StoredObject) × (key ≡ drop_last 5 e.key)
              × (ends_with key (text ".tar.gz") ≡ true)
              × IsMarkerKey e
              × Did (delete_object e.key) tt log))
  Allowed _ log = Unit

  module _ {V : Type 0} (env : Environment) where
    abbrev Obeyed : {B : Type 0} → B → World Answer V → Type 0
    Obeyed _ w = Obeys Allowed w.log

    delete_backup-Post :
        (e : StoredObject) (w : World Answer V)
        → IsMarkerKey e
        → Obeys Allowed w.log
        → Post Obeyed (Kept env Allowed) (delete_backup env prefix e w)
    unfolding delete_backup drop_last
    delete_backup-Post e w m o = after-throw_if env Allowed _ _ w _ o λ scoped.
        let (inside, archive) =
          both_of_guard (not (starts_with (drop_last 5 e.key) prefix)) _ scoped in
        let under = true_of_guard _ inside in
        after-call env Allowed (delete_object e.key) w
          (starts_with-take (length e.key - 5) e.key prefix under, inl m) o
          λ _ w1 (gone, k1, o1, _).
            weaken-Post
              (just-call env Allowed (delete_object (drop_last 5 e.key)) w1
                (under, inr (e, refl, true_of_guard _ archive, m, gone)) o1)
              (λ _ _ l. l.2) (λ _ _ bad. bad)

    retire-Post :
        (weeks : List ℕ) (entries : List StoredObject) (w : World Answer V)
        → All IsMarkerKey entries
        → Obeys Allowed w.log
        → Post Obeyed (Kept env Allowed) (retire env prefix weeks entries w)
    unfolding retire
    retire-Post weeks [] w t o = returned o
    retire-Post weeks (e ∷ entries) w (m, t) o =
        after-gets env Allowed (λ u. u.time) w _
          (and_then-Post (kept_or_deleted (keeps w.time weeks e))
            λ _ w1 o1. retire-Post (week_of e ∷ weeks) entries w1 t o1)
      where
        kept_or_deleted :
            (b : Bool)
            → Post Obeyed
                (Kept env Allowed)
                ((if b then (λ u. (ok tt, u)) else delete_backup env prefix e) w)
        kept_or_deleted true = returned o
        kept_or_deleted false = delete_backup-Post e w m o

    abbrev Lost : Stop → World Answer V → Type 0
    Lost h w = Obeys Allowed w.log

    -- What follows a page.
    next_page :
        (rounds : ℕ) (next : Option Text) (found : List StoredObject) (w : World Answer V)
        → ((t : Text) → Post Obeyed Lost (list_all env prefix rounds (some t) found w))
        → Obeys Allowed w.log
        → Post Obeyed Lost (
            elim next as (λ _. Script (World Answer V) (List StoredObject)) [
              | none ↦ (λ u. (ok found, u))
              | some t ↦ list_all env prefix rounds (some t) found
            ]
              w)
    next_page rounds none found w rec o = returned o
    next_page rounds (some t) found w rec o = rec t

    list_all-Post :
        (rounds : ℕ) (token : Option Text) (entries : List StoredObject) (w : World Answer V)
        → Obeys Allowed w.log
        → Post Obeyed Lost (list_all env prefix rounds token entries w)
    unfolding list_all
    list_all-Post zero token entries w o = stopped o
    list_all-Post (suc rounds) token entries w o =
        and_then-Post
          (weaken-Post (just-call env Allowed (list_objects prefix token) w tt o) (λ _ _ l. l.2)
            (λ _ _ bad. bad.1))
          λ page w1 o1.
            next_page rounds (more_pages page) (entries ++ page.contents) w1
              (λ t. list_all-Post rounds (some t) (entries ++ page.contents) w1 o1) o1

    retire_old_backups-Post :
        (rounds : ℕ) (w : World Answer V)
        → Obeys Allowed w.log
        → Post Obeyed Lost (retire_old_backups env prefix rounds w)
    unfolding retire_old_backups
    retire_old_backups-Post rounds w o =
        and_then-Post (list_all-Post rounds none [] w o) λ entries w1 o1.
          weaken-Post
            (retire-Post [] (latest_first (markers entries)) w1
              (latest_first-IsMarkerKey (markers entries) (markers-IsMarkerKey entries)) o1)
            (λ _ _ o2. o2) (λ _ _ bad. bad.1)

abbrev pub fresh : ℕ → World Answer (Unit {0})
fresh now = record { log = []; time = now; cancelled = false; vars = tt }

-- Whenever the retention deletes an object, its key lies under the environment's prefix, and it is a
-- completion marker, or an archive whose own completion marker was deleted before, with an
-- acknowledgement.
pub deletion_is_scoped :
    (env : Environment) (prefix : Text) (rounds now : ℕ) (later log : Log Answer) (key : Text)
    (r : Settled (Unit {0}))
    → (retire_old_backups env prefix rounds (fresh now)).1.log
      ≡ later ++ (called (delete_object key) r ∷ log)
    → (starts_with key prefix ≡ true)
      × ((ends_with key (text ".tar.gz.json") ≡ true)
          ⊎ ((e : StoredObject) × (key ≡ drop_last 5 e.key)
              × (ends_with key (text ".tar.gz") ≡ true)
              × IsMarkerKey e
              × Did (delete_object e.key) tt log))
deletion_is_scoped env prefix rounds now later log key r e =
    Obeys-append (Allowed prefix) later (delete_object key) r log
      (rw e at (obeyed (retire_old_backups-Post prefix env rounds (fresh now) tt)))
  where
    obeyed :
        {end : Outcome (Unit {0}) × World Answer (Unit {0})}
        → Post (Obeyed prefix env) (Lost prefix env) end
        → Obeys (Allowed prefix) end.1.log
    obeyed (returned o) = o
    obeyed (stopped o) = o
