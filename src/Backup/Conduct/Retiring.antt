-- ===== src/Backup/Conduct/Retiring.antt =====
-- The retention and the final report of the backup, in the protocol.
use mathlib.Core.Option
use cartyx_infrastructure.Base.{
  ℕ, zero, suc, Text, text, List, [], ◌∷◌, ◌++◌, Option, none, some, refl, inl, inr, Bool-cases,
  Option-cases, drop_last, decimal,
}
use cartyx_infrastructure.Script.{and_then}
use cartyx_infrastructure.Script.Post.{Post, returned, stopped, and_then-Post}
use cartyx_infrastructure.Cluster.Clock.{to_iso_string}
use cartyx_infrastructure.Cluster.Documents.{StoredObject, Manifest}
use cartyx_infrastructure.Cluster.Request.{Environment, patch_status, list_objects, delete_object}
use cartyx_infrastructure.Backup.Retention.{
  more_pages, list_all, delete_backup, retire, retire_old_backups, keeps, week_of, latest_first,
  markers,
}
use cartyx_infrastructure.Backup.Steps.{State, Context, phase_only}
use cartyx_infrastructure.Backup.Archive.{report}
use cartyx_infrastructure.Backup.Protocol.{idle, published, step}
use cartyx_infrastructure.Backup.Conduct.Points.{Point, Halted, Sound, settled, Point-Safe}
use cartyx_infrastructure.Backup.Conduct.Rules.{same_call, throw_if-Post}
use cartyx_infrastructure.Backup.Conduct.Saving.{closed_vars}

abbrev finished : Sound closed_vars published
finished = settled refl refl refl

abbrev Tidy : {A : Type 0} → A → State → Type 0
Tidy _ = Point idle published closed_vars

module _ (env : Environment) (prefix : Text) where
  list_all-Post :
      (rounds : ℕ) (token : Option Text) (entries : List StoredObject) {w : State}
      → Point idle published closed_vars w
      → Post Tidy (Halted idle) (list_all env prefix rounds token entries w)
  unfolding list_all step
  list_all-Post zero token entries p = stopped (tt, Point-Safe p finished)
  list_all-Post (suc rounds) token entries p =
      and_then-Post (same_call env (list_objects prefix token) p (λ r. refl) finished) λ page w p.
        elim (Option-cases (more_pages page)) [
          | inl last ↦ rw last (returned p)
          | inr (next, more) ↦
              rw more (list_all-Post rounds (some next) (entries ++ page.contents) p)
        ]

  delete_backup-Post :
      (e : StoredObject) {w : State}
      → Point idle published closed_vars w
      → Post Tidy (Halted idle) (delete_backup env prefix e w)
  unfolding delete_backup step
  delete_backup-Post e p = and_then-Post (throw_if-Post env _ _ p finished) λ _ _ p.
      and_then-Post (same_call env (delete_object e.key) p (λ r. refl) finished)
        λ _ _ p. same_call env (delete_object (drop_last 5 e.key)) p (λ r. refl) finished

  retire-Post :
      (weeks : List ℕ) (entries : List StoredObject) {w : State}
      → Point idle published closed_vars w
      → Post Tidy (Halted idle) (retire env prefix weeks entries w)
  unfolding retire and_then
  retire-Post weeks [] p = returned p
  retire-Post weeks (e ∷ entries) {w} p = elim (Bool-cases (keeps w.time weeks e)) [
    | inl kept ↦ rw kept (retire-Post (week_of e ∷ weeks) entries p)
    | inr expired ↦
        rw expired (
          and_then-Post (delete_backup-Post e p) λ _ _ p. retire-Post (week_of e ∷ weeks) entries p)
  ]

  pub retire_old_backups-Post :
      (rounds : ℕ) {w : State}
      → Point idle published closed_vars w
      → Post Tidy (Halted idle) (retire_old_backups env prefix rounds w)
  unfolding retire_old_backups
  retire_old_backups-Post rounds p =
      and_then-Post (list_all-Post rounds none [] p)
        λ entries _ p. retire-Post [] (latest_first (markers entries)) p

pub report-Post :
    (env : Environment) (ctx : Context) (manifest : Manifest) {w : State}
    → Point idle published closed_vars w
    → Post Tidy (Halted idle) (report env ctx manifest w)
unfolding report step and_then
report-Post env ctx manifest {w} p =
    same_call env
      (patch_status (record (phase_only (text "completed")) {
        last_success = some (to_iso_string w.time);
        key = some (ctx.key ++ text ".json");
        sha256 = manifest.sha256;
        bytes = Option.map decimal manifest.bytes;
        error = some [];
      }))
      p (λ r. refl) finished
