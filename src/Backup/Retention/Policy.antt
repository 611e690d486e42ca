-- ===== src/Backup/Retention/Policy.antt =====
-- The age at which `retireOldBackups` may delete a backup.
use cartyx_infrastructure.Base.{
  ℕ, ◌+◌, ◌*◌, ◌≤◌, ◌<◌, Text, text, List, [], ◌∷◌, ◌++◌, All, false, Option, ◌≡◌, ◌⊎◌, inl, inr,
  refl, Bool-cases, ends_with, drop_last, leb, both_of_guard, arith,
}
use cartyx_infrastructure.Script.{Log, called, slept}
use cartyx_infrastructure.Script.Discipline.{Did, Keeps}
use cartyx_infrastructure.Cluster.Clock.{day_ms}
use cartyx_infrastructure.Cluster.Documents.{StoredObject, Page}
use cartyx_infrastructure.Cluster.Request.{Answer, delete_object, list_objects}
use cartyx_infrastructure.Backup.Retention.{keeps, markers, place, latest_first}

abbrev pub Among : StoredObject → List StoredObject → Type 0
Among e [] = ⊥
Among e (x ∷ xs) = (e ≡ x) ⊎ Among e xs

module _ (P : StoredObject → Type 0) where
  pub All-append : (xs ys : List StoredObject) → All P xs → All P ys → All P (xs ++ ys)
  All-append [] ys a b = b
  All-append (x ∷ xs) ys (p, a) b = (p, All-append xs ys a b)

  pub All-markers : (xs : List StoredObject) → All P xs → All P (markers xs)
  unfolding markers
  All-markers [] a = tt
  All-markers (x ∷ xs) (p, a) = elim (Bool-cases (ends_with x.key (text ".tar.gz.json"))) [
    | inl h ↦ rw h (p, All-markers xs a)
    | inr h ↦ rw h (All-markers xs a)
  ]

  All-place : (e : StoredObject) (xs : List StoredObject) → P e → All P xs → All P (place e xs)
  unfolding place
  All-place e [] p a = (p, tt)
  All-place e (x ∷ xs) p (q, a) = elim (Bool-cases (leb x.last_modified e.last_modified)) [
    | inl later ↦ rw later (p, (q, a))
    | inr sooner ↦ rw sooner (q, All-place e xs p a)
  ]

  pub All-latest_first : (xs : List StoredObject) → All P xs → All P (latest_first xs)
  unfolding latest_first
  All-latest_first [] a = tt
  All-latest_first (x ∷ xs) (p, a) = All-place x (latest_first xs) p (All-latest_first xs a)

  -- What holds of each element of a list holds of all of them.
  pub All-Among : (xs : List StoredObject) → ((e : StoredObject) → Among e xs → P e) → All P xs
  All-Among [] f = tt
  All-Among (x ∷ xs) f = (f x (inl refl), All-Among xs (λ e m. f e (inr m)))

-- At this time the backup is over 14 days old.
abbrev pub IsOld : ℕ → StoredObject → Type 0
IsOld time e = e.last_modified + 14 * day_ms < time

pub IsOld-later : (time time' : ℕ) (e : StoredObject) → time ≤ time' → IsOld time e → IsOld time' e
IsOld-later time time' e h old = omega (arith, h, old)

-- The object stands on a page of a listing that was answered.
abbrev pub IsListed : StoredObject → Log Answer → Type 0
IsListed e log =
    (prefix : Text) × (token : Option Text) × (page : Page) × Did (list_objects prefix token) page
      log
    × Among e page.contents

pub IsListed-kept :
    {log log' : Log Answer} (e : StoredObject) → Keeps log log' → IsListed e log → IsListed e log'
IsListed-kept e k (prefix, token, page, d, m) = (prefix, token, page, k _ _ d, m)

-- Each deletion of a log is of the marker or the archive of a backup that was listed before, and that
-- is old at this time.
abbrev pub IsTidy : ℕ → Log Answer → Type 0
IsTidy time [] = Unit
IsTidy time (called (delete_object key) r ∷ log) =
    ((e : StoredObject) × ((key ≡ e.key) ⊎ (key ≡ drop_last 5 e.key))
      × IsOld time e
      × IsListed e log)
    × IsTidy time log
IsTidy time (called _ r ∷ log) = IsTidy time log
IsTidy time (slept ms ∷ log) = IsTidy time log

pub IsTidy-later :
    (time time' : ℕ) (log : Log Answer) → time ≤ time' → IsTidy time log → IsTidy time' log
IsTidy-later time time' [] h t = tt
IsTidy-later time time' (called (delete_object key) r ∷ log) h ((e, which, old, listed), t) =
    ((e, which, IsOld-later time time' e h old, listed), IsTidy-later time time' log h t)
IsTidy-later time time' (called _ r ∷ log) h t = IsTidy-later time time' log h t
IsTidy-later time time' (slept ms ∷ log) h t = IsTidy-later time time' log h t

pub not_kept-IsOld :
    (now : ℕ) (weeks : List ℕ) (e : StoredObject) → keeps now weeks e ≡ false → IsOld now e
not_kept-IsOld now weeks e h =
    let (young, _) = both_of_guard (leb now (e.last_modified + 14 * day_ms)) _ h in
    ground (arith, young)
