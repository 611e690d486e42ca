-- ===== src/Backup/Promises.antt =====
-- What deploy/data/README.md promises of a backup, for every run of backup-cluster.mjs.
use mathlib.Core.Option
use cartyx_infrastructure.Base.{
  ℕ, Text, ◌∷◌, ◌++◌, true, false, Option, none, some, ◌≡◌, ◌≢◌, ◌⊎◌, inl, inr, Option-cases, refl,
  Bool, Bool-cases, text, text_eq, eq_of_text_eq, ◌&&◌, ap, arith,
}
use cartyx_infrastructure.Script.{Settled, called}
use cartyx_infrastructure.Cluster.Documents.{Manifest, release}
use cartyx_infrastructure.Cluster.Request.{
  Request, Answer, Environment, History, patch_lease, delete_object, put_manifest, archive,
}
use cartyx_infrastructure.Backup.Main.{Settings, run, exit_status}
use cartyx_infrastructure.Backup.Protocol.{
  Stage, is_marker, is_text, idle, locked, quiet, back, hashed, uploaded, verified, published,
  released, step, next, follow,
}
use cartyx_infrastructure.Backup.Protocol.Meaning.{
  Words, said, words, IsQuiet, IsUntouched, IsRestored, IsVerified, HasMarker, Means,
}
use cartyx_infrastructure.Backup.Protocol.Following.{follow-Means, follow-append}
use cartyx_infrastructure.Backup.Protocol.Holding.{is_change, change-lease}
use cartyx_infrastructure.Backup.Conduct.Whole.{
  is_recovery, run_follows_protocol, run_success_is_complete,
}

-- The stage before an allowed call.
before :
    (q : Request) (r : Settled (Answer q)) (log : History)
    → follow idle (called q r ∷ log) ≢ none
    → (stage : Stage) × (follow idle log ≡ some stage) × (step stage q r ≢ none)
unfolding follow next Option.bind
before q r log h = elim (Option-cases (follow idle log)) [
  | inl lost ↦ absurd (h (rw lost))
  | inr (stage, kept) ↦ (stage, kept, λ gone. h (rw (kept, gone)))
]

archive-Quiet :
    (path : Text) (r : Settled (Option ℕ)) (stage : Stage) (t : Words)
    → step stage (archive path) r ≢ none
    → Means stage t
    → IsQuiet t
unfolding step
archive-Quiet path r quiet t h m = m
archive-Quiet path r _ t h m = absurd (h refl)

release-Safe :
    (v : Option Text) (r : Settled (Unit {0})) (stage : Stage) (t : Words)
    → step stage (patch_lease (release v)) r ≢ none
    → Means stage t
    → IsUntouched t ⊎ IsRestored t
unfolding step
release-Safe v r locked t h m = inl m
release-Safe v r (back a) t h m = inr m
release-Safe v r (hashed sum) t h m = inr m.0
release-Safe v r (uploaded key sum) t h m = inr m.0
release-Safe v r (verified key sum) t h m = inr m.0
release-Safe v r published t h m = inr m.0
release-Safe v r _ t h m = absurd (h refl)

-- The archive was stored and checked under a key, and the marker beside it has its key and its hash.
abbrev pub IsMarked : Text → Manifest → Words → Type 0
IsMarked name manifest t =
    (key : Text) × (sum : Text) × IsVerified key sum t
    × (name ≡ key ++ text ".json")
    × (manifest.sha256 ≡ some sum)
    × (manifest.key ≡ some key)

some_text : (v : Option Text) (s : Text) → is_text v s ≡ true → v ≡ some s
some_text none s h = cc h
some_text (some t) s h = ap some (eq_of_text_eq t s h)

both_true : (a b : Bool) → a && b ≡ true → (a ≡ true) × (b ≡ true)
both_true a b h = ground arith

marker_parts :
    (key sum name : Text) (manifest : Manifest)
    → is_marker key sum name manifest ≡ true
    → (name ≡ key ++ text ".json") × (manifest.sha256 ≡ some sum) × (manifest.key ≡ some key)
marker_parts key sum name manifest h =
    let (beside, rest) = both_true (text_eq name (key ++ text ".json")) _ h in
    let (hash, object) = both_true (is_text manifest.sha256 sum) _ rest in
    (
      eq_of_text_eq name (key ++ text ".json") beside,
      some_text manifest.sha256 sum hash,
      some_text manifest.key key object,
    )

marker-Verified :
    (key : Text) (manifest : Manifest) (r : Settled (Unit {0})) (stage : Stage) (t : Words)
    → step stage (put_manifest key manifest) r ≢ none
    → Means stage t
    → IsRestored t × IsMarked key manifest t
unfolding step
marker-Verified name manifest r (verified key sum) t h m =
    elim (Bool-cases (is_marker key sum name manifest)) [
      | inl fits ↦
          let (beside, hash, object) = marker_parts key sum name manifest fits in
          (m.0, (key, sum, m.1, beside, hash, object))
      | inr other ↦ absurd (h (rw other))
    ]
marker-Verified name manifest r _ t h m = absurd (h refl)

delete-Marked :
    (key : Text) (r : Settled (Unit {0})) (stage : Stage) (t : Words)
    → step stage (delete_object key) r ≢ none
    → Means stage t
    → HasMarker t
unfolding step
delete-Marked key r published t h m = m.1
delete-Marked key r _ t h m = absurd (h refl)

module _ (env : Environment) (settings : Settings) (now : ℕ) (backup : is_recovery settings ≡ false)
    (later log : History) where
  -- Calls of the run are allowed where they are made.
  allowed :
      (q : Request) (r : Settled (Answer q))
      → (run env settings now).1.log ≡ later ++ (called q r ∷ log)
      → follow idle (called q r ∷ log) ≢ none
  allowed q r e =
      follow-append later (called q r ∷ log)
        (rw e at (run_follows_protocol env settings now backup))

  -- Whenever a run that is no recovery starts `tar`, the last words on both reconcilers are
  -- acknowledged suspensions, those on both databases acknowledged scalings to zero, and the last
  -- list of each database's pods was empty.
  pub archive-IsQuiet :
      (path : Text) (r : Settled (Option ℕ))
      → (run env settings now).1.log ≡ later ++ (called (archive path) r ∷ log)
      → IsQuiet (words log)
  archive-IsQuiet path r e =
      let (stage, kept, ok_step) = before (archive path) r log (allowed (archive path) r e) in
      archive-Quiet path r stage (words log) ok_step
        (follow-Means idle log stage (refl, refl, refl, refl) kept)

  -- Whenever a run that is no recovery asks to release the lease, it has changed neither the
  -- reconcilers nor the databases, or the last words on all four are acknowledged: one replica of
  -- each database, and no suspension.
  pub release_is_safe :
      (v : Option Text) (r : Settled (Unit {0}))
      → (run env settings now).1.log ≡ later ++ (called (patch_lease (release v)) r ∷ log)
      → IsUntouched (words log) ⊎ IsRestored (words log)
  release_is_safe v r e =
      let (stage, kept, ok_step) =
        before (patch_lease (release v)) r log (allowed (patch_lease (release v)) r e) in
      release-Safe v r stage (words log) ok_step
        (follow-Means idle log stage (refl, refl, refl, refl) kept)

  -- Whenever a run that is no recovery publishes a completion marker, the services are back, and there
  -- is one key and one hash such that the last file hashed was the archive and had this hash, the last
  -- upload was the archive's under this key and was acknowledged, and the last read-back was from this
  -- key and had this hash. The marker stands under the key with `.json`, and names key and hash.
  pub marker-IsVerified :
      (key : Text) (manifest : Manifest) (r : Settled (Unit {0}))
      → (run env settings now).1.log ≡ later ++ (called (put_manifest key manifest) r ∷ log)
      → IsRestored (words log) × IsMarked key manifest (words log)
  marker-IsVerified key manifest r e =
      let (stage, kept, ok_step) =
        before (put_manifest key manifest) r log (allowed (put_manifest key manifest) r e) in
      marker-Verified key manifest r stage (words log) ok_step
        (follow-Means idle log stage (refl, refl, refl, refl) kept)

  -- A run that is no recovery deletes from the bucket only after its own completion marker was
  -- acknowledged.
  pub deletion_is_marked :
      (key : Text) (r : Settled (Unit {0}))
      → (run env settings now).1.log ≡ later ++ (called (delete_object key) r ∷ log)
      → HasMarker (words log)
  deletion_is_marked key r e =
      let (stage, kept, ok_step) =
        before (delete_object key) r log (allowed (delete_object key) r e) in
      delete-Marked key r stage (words log) ok_step
        (follow-Means idle log stage (refl, refl, refl, refl) kept)

  -- A run that is no recovery suspends, scales, archives, uploads, publishes and deletes only while
  -- the last word on the lease is its own acknowledged acquisition.
  pub change_is_exclusive :
      (q : Request) (r : Settled (Answer q))
      → is_change q ≡ true
      → (run env settings now).1.log ≡ later ++ (called q r ∷ log)
      → (words log).lease ≡ said true
  change_is_exclusive q r c e = change-lease q r log c (allowed q r e)

-- A run that is no recovery and ends with status 0 has restored the services, published its
-- completion marker and released the lease, each with an acknowledgement.
pub success_is_complete :
    (env : Environment) (settings : Settings) (now : ℕ)
    → is_recovery settings ≡ false
    → exit_status (run env settings now) ≡ some 0
    → let t = words (run env settings now).1.log in
      IsRestored t × HasMarker t × (t.lease ≡ said false)
success_is_complete env settings now backup e =
    follow-Means idle _ (released true) (refl, refl, refl, refl)
      (run_success_is_complete env settings now backup e)
