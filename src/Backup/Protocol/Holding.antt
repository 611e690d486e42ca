-- ===== src/Backup/Protocol/Holding.antt =====
-- Along the protocol the lease is held whenever something is changed.
use mathlib.Core.Option
use mathlib.Core.Option.{some-injective}
use mathlib.Core.Path.{subst}
use cartyx_infrastructure.Base.{
  zero, suc, [], ◌∷◌, Bool, true, false, none, some, ◌≡◌, ◌≢◌, refl, inl, inr, arith, Option-cases,
}
use cartyx_infrastructure.Script.{Settled, called, slept}
use cartyx_infrastructure.Cluster.Documents.{acquire, release, janusgraph, cassandra}
use cartyx_infrastructure.Cluster.Request.{
  Request, Answer, History, get_pods, patch_lease, suspend_helm, suspend_flux, scale, delete_object,
  upload_archive, put_manifest, archive,
}
use cartyx_infrastructure.Backup.Protocol.{Stage, idle, dangling, released, step, next, follow}
use cartyx_infrastructure.Backup.Protocol.Meaning.{Words, said, hear, words, silence}

-- Between the acquisition of the lease and its release.
abbrev holding : Stage → Bool
holding idle = false
holding dangling = false
holding (released a) = false
holding _ = true

-- A call that changes the cluster or the bucket, or copies the data.
abbrev pub is_change : Request → Bool
is_change (suspend_flux b) = true
is_change (suspend_helm b) = true
is_change (scale component n) = true
is_change (archive path) = true
is_change (upload_archive path key) = true
is_change (put_manifest key manifest) = true
is_change (delete_object key) = true
is_change _ = false

abbrev Holds : Stage → Words → Type 0
Holds stage t = holding stage ≡ true → t.lease ≡ said true

step-Holds :
    (q : Request) (r : Settled (Answer q)) (stage after : Stage) (t : Words)
    → step stage q r ≡ some after
    → Holds stage t
    → Holds after (hear q r t)
unfolding step hear
step-Holds (patch_lease (acquire v o w s n)) r stage after t e m = ground arith
step-Holds (patch_lease (release v)) r stage after t e m = ground arith
step-Holds (suspend_flux true) r stage after t e m = ground arith
step-Holds (suspend_flux false) r stage after t e m = ground arith
step-Holds (suspend_helm true) r stage after t e m = ground arith
step-Holds (suspend_helm false) r stage after t e m = ground arith
step-Holds (scale janusgraph zero) r stage after t e m = ground arith
step-Holds (scale janusgraph (suc zero)) r stage after t e m = ground arith
step-Holds (scale cassandra zero) r stage after t e m = ground arith
step-Holds (scale cassandra (suc zero)) r stage after t e m = ground arith
step-Holds (scale janusgraph (suc (suc n))) r stage after t e m = cc
step-Holds (scale cassandra (suc (suc n))) r stage after t e m = cc
step-Holds (get_pods janusgraph) r stage after t e m = ground arith
step-Holds (get_pods cassandra) r stage after t e m = ground arith
step-Holds _ r stage after t e m = ground arith

follow-Holds :
    (log : History) (stage : Stage) → follow idle log ≡ some stage → Holds stage (words log)
unfolding follow words next Option.bind
follow-Holds [] stage e = subst (λ s. Holds s silence) (some-injective idle stage e) (λ no. cc)
follow-Holds (called q r ∷ log) stage e = elim (Option-cases (follow idle log)) [
  | inl lost ↦ cc (rw lost at e)
  | inr (before, kept) ↦
      step-Holds q r before stage (words log) (rw kept at e) (follow-Holds log before kept)
]
follow-Holds (slept ms ∷ log) stage e = elim (Option-cases (follow idle log)) [
  | inl lost ↦ cc (rw lost at e)
  | inr (before, kept) ↦
      subst (λ s. Holds s (words log)) (some-injective before stage (rw kept at e))
        (follow-Holds log before kept)
]

change_is_holding :
    (q : Request) (r : Settled (Answer q)) (stage : Stage)
    → is_change q ≡ true
    → step stage q r ≢ none
    → holding stage ≡ true
unfolding step
change_is_holding (suspend_flux true) r stage c h = ground arith
change_is_holding (suspend_flux false) r stage c h = ground arith
change_is_holding (suspend_helm true) r stage c h = ground arith
change_is_holding (suspend_helm false) r stage c h = ground arith
change_is_holding (scale janusgraph zero) r stage c h = ground arith
change_is_holding (scale janusgraph (suc zero)) r stage c h = ground arith
change_is_holding (scale cassandra zero) r stage c h = ground arith
change_is_holding (scale cassandra (suc zero)) r stage c h = ground arith
change_is_holding (scale janusgraph (suc (suc n))) r stage c h = absurd (h refl)
change_is_holding (scale cassandra (suc (suc n))) r stage c h = absurd (h refl)
change_is_holding (archive path) r stage c h = ground arith
change_is_holding (upload_archive path key) r stage c h = ground arith
change_is_holding (put_manifest key manifest) r stage c h = ground arith
change_is_holding (delete_object key) r stage c h = ground arith
change_is_holding _ r stage c h = cc

-- A change is allowed only while the last word on the lease is its acknowledged acquisition.
pub change-lease :
    (q : Request) (r : Settled (Answer q)) (log : History)
    → is_change q ≡ true
    → follow idle (called q r ∷ log) ≢ none
    → (words log).lease ≡ said true
unfolding follow next Option.bind
change-lease q r log c h = elim (Option-cases (follow idle log)) [
  | inl lost ↦ absurd (h (rw lost))
  | inr (stage, kept) ↦
      follow-Holds log stage kept (change_is_holding q r stage c (λ gone. h (rw (kept, gone))))
]
