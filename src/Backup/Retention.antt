-- ===== src/Backup/Retention.antt =====
-- `retireOldBackups` of deploy/data/backup-cluster.mjs. Times are whole milliseconds, so its
-- quotients by a day are read as comparisons of multiples: JavaScript's rounding of them crosses no
-- whole day, since a quotient that is not whole differs from a whole one by more than 10⁻⁸.
pub mod Scope
pub mod Policy
pub mod Tidying
use cartyx_infrastructure.Base.{
  ℕ, zero, suc, ◌+◌, ◌*◌, ◌/◌, Text, text, List, [], ◌∷◌, ◌++◌, Bool, false, not, ◌&&◌, ◌||◌, leb,
  ◌==◌, if◌then◌else◌, Option, none, some, starts_with, ends_with, drop_last,
}
use cartyx_infrastructure.Script.{Script, World, call, pure, gets, give_up, throw_if, ◌>>=◌, ◌>>◌}
use cartyx_infrastructure.Cluster.Clock.{day_ms}
use cartyx_infrastructure.Cluster.Documents.{StoredObject, Page}
use cartyx_infrastructure.Cluster.Request.{Answer, Environment, list_objects, delete_object}

-- `Math.floor((ms / 86400000 + 3) / 7)`: the week from Monday to Sunday, as 1970-01-01 was a Thursday.
abbrev pub week_of : StoredObject → ℕ
week_of e = (e.last_modified + 3 * day_ms) / (7 * day_ms)

-- `weeks.has(week)`
abbrev pub seen : List ℕ → ℕ → Bool
seen [] week = false
seen (x ∷ weeks) week = (x == week) || seen weeks week

-- `age <= 14 || (age <= 56 && !weeks.has(week))`
abbrev pub keeps : ℕ → List ℕ → StoredObject → Bool
keeps now weeks e =
    leb now (e.last_modified + 14 * day_ms)
    || (leb now (e.last_modified + 56 * day_ms) && not (seen weeks (week_of e)))

-- `entries.filter(e => e.Key.endsWith('.tar.gz.json'))`
unfoldable pub markers : List StoredObject → List StoredObject
markers [] = []
markers (e ∷ entries) =
    let rest = markers entries in if ends_with e.key (text ".tar.gz.json") then e ∷ rest else rest

-- `.sort((a, b) => b.LastModified - a.LastModified)`: the latest first, equals in their order.
unfoldable pub place : StoredObject → List StoredObject → List StoredObject
place e [] = e ∷ []
place e (x ∷ xs) =
    let rest = place e xs in if leb x.last_modified e.last_modified then e ∷ x ∷ xs else x ∷ rest

unfoldable pub latest_first : List StoredObject → List StoredObject
unfolding place
latest_first [] = []
latest_first (e ∷ entries) = place e (latest_first entries)

-- `page.IsTruncated ? page.NextContinuationToken : undefined`, as a condition: an empty token is
-- false, like a missing one.
unfoldable pub more_pages : Page → Option Text
more_pages page =
    let truthy : Option Text = elim page.next_token [
      | none ↦ none
      | some [] ↦ none
      | some (c ∷ s) ↦ some (c ∷ s)
    ] in
    if page.is_truncated then truthy else none

module _ {V : Type 0} (env : Environment) (prefix : Text) where
  -- The `do ... while (ContinuationToken)` loop, in at most `rounds` pages.
  unfoldable pub list_all :
      ℕ → Option Text → List StoredObject → Script (World Answer V) (List StoredObject)
  unfolding more_pages
  list_all zero token entries = give_up
  list_all (suc rounds) token entries = do
    page ← call env (list_objects prefix token)
    let found = entries ++ page.contents
    elim (more_pages page) [ none ↦ pure found | some next ↦ list_all rounds (some next) found ]

  -- The body of `if (!keep)`: the completion marker goes first.
  unfoldable pub delete_backup : StoredObject → Script (World Answer V) (Unit {0})
  delete_backup e = do
    let key = drop_last 5 e.key
    throw_if (not (starts_with key prefix) || not (ends_with key (text ".tar.gz")))
        (text "Invalid retention key")
    call env (delete_object e.key)
    call env (delete_object key)

  unfoldable pub retire : List ℕ → List StoredObject → Script (World Answer V) (Unit {0})
  unfolding delete_backup
  retire weeks [] = pure tt
  retire weeks (e ∷ entries) = do
    now ← gets (λ w. w.time)
    if keeps now weeks e then pure tt else delete_backup e
    retire (week_of e ∷ weeks) entries

  unfoldable pub retire_old_backups : ℕ → Script (World Answer V) (Unit {0})
  unfolding list_all retire markers latest_first
  retire_old_backups rounds = do
    entries ← list_all rounds none []
    retire [] (latest_first (markers entries))
