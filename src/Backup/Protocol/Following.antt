-- ===== src/Backup/Protocol/Following.antt =====
-- Each step of the protocol leads to a stage that means the last words by then.
use mathlib.Core.Option
use mathlib.Core.Option.{some-injective}
use mathlib.Core.Path.{subst}
use cartyx_infrastructure.Base.{
  zero, suc, Text, Option, [], ◌∷◌, Bool, true, false, none, some, ◌≡◌, refl, inl, inr, arith,
  Bool-cases, Option-cases, ◌++◌, ◌≢◌, text_eq, eq_of_text_eq,
}
use cartyx_infrastructure.Script.{Settled, resolved, rejected, called, slept}
use cartyx_infrastructure.Cluster.Documents.{acquire, release, Manifest, janusgraph, cassandra}
use cartyx_infrastructure.Cluster.Request.{
  Request, Answer, History, get_graph, get_cassandra, get_pods, patch_lease, suspend_helm,
  suspend_flux, scale, list_objects, delete_object, upload_archive, read_back, put_manifest,
  archive, hash_file,
}
use cartyx_infrastructure.Backup.Archive.{archive_path}
use cartyx_infrastructure.Backup.Protocol.{
  only, is_marker, Stage, idle, locked, back, hashed, uploaded, verified, published, step, next,
  follow,
}
use cartyx_infrastructure.Backup.Protocol.Meaning.{Words, hear, words, silence, Means}

-- A call that leaves the stage and the last words alone.
same-Means :
    {stage after : Stage} (t : Words) → some stage ≡ some after → Means stage t → Means after t
same-Means {stage} {after} t e m = subst (λ stage. Means stage t) (some-injective stage after e) m

-- A step under a condition was taken, so that the condition holds.
only-some :
    (b : Bool) {A : Type 0} {s : Option A} {after : A}
    → only b s ≡ some after
    → (b ≡ true) × (s ≡ some after)
only-some true e = (refl, e)
only-some false e = cc e

read_back-Means :
    (key : Text) (r : Settled Text) (stage after : Stage) (t : Words)
    → step stage (read_back key) r ≡ some after
    → Means stage t
    → Means after (hear (read_back key) r t)
unfolding step hear
read_back-Means name (rejected m) (uploaded key sum) after t e h =
    same-Means _ (only-some (text_eq name key) e).1 h
read_back-Means name (resolved stored) (uploaded key sum) after t e h =
    let (there, e') = only-some (text_eq name key) e in
    elim (Bool-cases (text_eq stored sum)) [
      | inl same ↦
          same-Means _ (rw same at e')
            (h.0, (h.1, h.2, rw (eq_of_text_eq name key there, eq_of_text_eq stored sum same) refl))
      | inr differs ↦ same-Means _ (rw differs at e') h
    ]
read_back-Means name r _ after t e h = cc

hash-Means :
    (path : Text) (r : Settled Text) (stage after : Stage) (t : Words)
    → step stage (hash_file path) r ≡ some after
    → Means stage t
    → Means after (hear (hash_file path) r t)
unfolding step hear
hash-Means path (resolved sum) (back true) after t e m =
    let (there, e') = only-some (text_eq path archive_path) e in
    same-Means _ e' (m, rw (eq_of_text_eq path archive_path there) refl)
hash-Means path (rejected x) (back true) after t e m =
    same-Means _ (only-some (text_eq path archive_path) e).1 m
hash-Means path r _ after t e m = let (_, e') = only-some (text_eq path archive_path) e in cc e'

upload-Means :
    (path key : Text) (r : Settled (Unit {0})) (stage after : Stage) (t : Words)
    → step stage (upload_archive path key) r ≡ some after
    → Means stage t
    → Means after (hear (upload_archive path key) r t)
unfolding step hear
upload-Means path key (resolved u) (hashed sum) after t e m =
    let (there, e') = only-some (text_eq path archive_path) e in
    same-Means _ e' (m.0, m.1, rw (eq_of_text_eq path archive_path there) refl)
upload-Means path key (rejected x) (hashed sum) after t e m =
    same-Means _ (only-some (text_eq path archive_path) e).1 m
upload-Means path key r _ after t e m =
    let (_, e') = only-some (text_eq path archive_path) e in cc e'

release-Means :
    (v : Option Text) (r : Settled (Unit {0})) (stage after : Stage) (t : Words)
    → step stage (patch_lease (release v)) r ≡ some after
    → Means stage t
    → Means after (hear (patch_lease (release v)) r t)
unfolding step hear
release-Means v (resolved u) locked after t e m = same-Means _ e (inl m)
release-Means v (resolved u) (back a) after t e m = same-Means _ e (inr m)
release-Means v (resolved u) (hashed sum) after t e m = same-Means _ e (inr m.0)
release-Means v (resolved u) (uploaded key sum) after t e m = same-Means _ e (inr m.0)
release-Means v (resolved u) (verified key sum) after t e m = same-Means _ e (inr m.0)
release-Means v (resolved u) published after t e m = same-Means _ e (m.0, m.1, refl)
release-Means v (rejected x) locked after t e m = same-Means _ e tt
release-Means v (rejected x) (back a) after t e m = same-Means _ e tt
release-Means v (rejected x) (hashed sum) after t e m = same-Means _ e tt
release-Means v (rejected x) (uploaded key sum) after t e m = same-Means _ e tt
release-Means v (rejected x) (verified key sum) after t e m = same-Means _ e tt
release-Means v (rejected x) published after t e m = same-Means _ e tt
release-Means v r _ after t e m = cc

marker-Means :
    (key : Text) (manifest : Manifest) (r : Settled (Unit {0})) (stage after : Stage) (t : Words)
    → step stage (put_manifest key manifest) r ≡ some after
    → Means stage t
    → Means after (hear (put_manifest key manifest) r t)
unfolding step hear
marker-Means name manifest (resolved u) (verified key sum) after t e m =
    same-Means _ (only-some (is_marker key sum name manifest) e).1 (m.0, (name, refl))
marker-Means name manifest (rejected x) (verified key sum) after t e m =
    same-Means _ (only-some (is_marker key sum name manifest) e).1 m
marker-Means name manifest r _ after t e m = cc

-- A call leads to a stage that means what has been said by then.
step-Means :
    (q : Request) (r : Settled (Answer q)) (stage after : Stage) (t : Words)
    → step stage q r ≡ some after
    → Means stage t
    → Means after (hear q r t)
unfolding step hear
step-Means (suspend_flux true) r stage after t e m = ground arith
step-Means (suspend_flux false) r stage after t e m = ground arith
step-Means (suspend_helm true) r stage after t e m = ground arith
step-Means (suspend_helm false) r stage after t e m = ground arith
step-Means (patch_lease (acquire v o w s n)) r stage after t e m = ground arith
step-Means (patch_lease (release v)) r stage after t e m = release-Means v r stage after t e m
step-Means (scale janusgraph zero) r stage after t e m = ground arith
step-Means (scale janusgraph (suc zero)) r stage after t e m = ground arith
step-Means (scale cassandra zero) r stage after t e m = ground arith
step-Means (scale cassandra (suc zero)) r stage after t e m = ground arith
step-Means (scale janusgraph (suc (suc n))) r stage after t e m = cc
step-Means (scale cassandra (suc (suc n))) r stage after t e m = cc
step-Means (get_pods janusgraph) r stage after t e m = ground arith
step-Means (get_pods cassandra) r stage after t e m = ground arith
step-Means get_graph r stage after t e m = ground arith
step-Means get_cassandra r stage after t e m = ground arith
step-Means (archive path) r stage after t e m = ground arith
step-Means (hash_file path) r stage after t e m = hash-Means path r stage after t e m
step-Means (upload_archive path key) r stage after t e m = upload-Means path key r stage after t e m
step-Means (read_back key) r stage after t e m = read_back-Means key r stage after t e m
step-Means (put_manifest key manifest) r stage after t e m =
    marker-Means key manifest r stage after t e m
step-Means (list_objects prefix token) r stage after t e m = ground arith
step-Means (delete_object key) r stage after t e m = ground arith
step-Means _ r stage after t e m = same-Means _ e m

-- A history that keeps to the protocol has reached a stage that means its last words, if the stage
-- that it began at means silence.
pub follow-Means :
    (start : Stage) (log : History) (stage : Stage)
    → Means start silence
    → follow start log ≡ some stage
    → Means stage (words log)
unfolding follow words next Option.bind
follow-Means start [] stage m e = same-Means silence e m
follow-Means start (called q r ∷ log) stage m e = elim (Option-cases (follow start log)) [
  | inl lost ↦ cc (rw lost at e)
  | inr (before, kept) ↦
      step-Means q r before stage (words log) (rw kept at e) (follow-Means start log before m kept)
]
follow-Means start (slept ms ∷ log) stage m e = elim (Option-cases (follow start log)) [
  | inl lost ↦ cc (rw lost at e)
  | inr (before, kept) ↦
      same-Means (words log) (rw kept at e) (follow-Means start log before m kept)
]

-- What precedes a part of a history that keeps to the protocol keeps to it.
pub follow-append :
    (later log : History) → follow idle (later ++ log) ≢ none → follow idle log ≢ none
unfolding follow Option.bind
follow-append [] log h = h
follow-append (e ∷ later) log h = follow-append later log (λ lost. h (rw lost))
