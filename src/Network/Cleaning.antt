-- ===== src/Network/Cleaning.antt =====
-- The Jobs of deploy/data/network-security.mjs: how they come into `jobs`, and that what is there is
-- deleted.
use mathlib.Core.Path.{subst}
use mathlib.Core.List.{Memᴰ}
use mathlib.Core.List.Memᴰ
use cartyx_infrastructure.Base.{
  Text, List, [], ◌∷◌, All, Bool, true, false, ◌≡◌, ◌⊎◌, inl, inr, refl, ◌∙◌, sym, ap,
}
use cartyx_infrastructure.Script.{
  Env, Log, Stop, Settled, called, rejected, call, after_call, for_each,
}
use cartyx_infrastructure.Script.Post.{Post, returned, call-Post, weaken-Post, and_then-Post}
use cartyx_infrastructure.Script.Discipline.{IsThrow, Did, latest, earlier, Keeps}
use cartyx_infrastructure.Script.Blocks.{gets-Post, rejection-Did}
use cartyx_infrastructure.Network.{
  Check, Case, Probe, Request, Answer, State, create_job, delete_job, checks_of, probe_of,
  start_probe, delete_probes,
}

-- Each Job that was created is in `jobs`.
abbrev pub Tracks : State → Type 0
Tracks w =
    (p : Probe) (labels : List (Text × Text)) (checks : List Check)
    → Did (create_job p labels checks) tt w.log
    → Memᴰ p w.vars

-- Each Job that was created was deleted.
abbrev pub IsClean : Log Answer → Type 0
IsClean log =
    (p : Probe) (labels : List (Text × Text)) (checks : List Check)
    → Did (create_job p labels checks) tt log
    → Did (delete_job p) tt log

-- The latest call is a deletion, which failed.
abbrev pub IsRefused : Log Answer → Type 0
IsRefused log =
    (p : Probe) × (m : Text) × (before : Log Answer) × (log
      ≡ called (delete_job p) (rejected m) ∷ before)

abbrev is_create : Request → Bool
is_create (create_job p labels checks) = true
is_create _ = false

-- What holds of all holds of each.
pub All-lookup : (P : Probe → Type 0) {p : Probe} {ps : List Probe} → Memᴰ p ps → All P ps → P p
All-lookup P (Memᴰ.head e) (x, xs) = subst P (sym e) x
All-lookup P (Memᴰ.tail m) (x, xs) = All-lookup P m xs

module _ {p : Probe} {labels : List (Text × Text)} {checks : List Check} where
  older-Did :
      (q : Request) (r : Settled (Answer q)) (log : Log Answer)
      → is_create q ≡ false
      → Did (create_job p labels checks) tt (called q r ∷ log)
      → Did (create_job p labels checks) tt log
  older-Did q r log h latest = cc h
  older-Did q r log h (earlier d) = d

  new-Did :
      (p' : Probe) (labels' : List (Text × Text)) (checks' : List Check) (r : Settled (Unit {0}))
      (log : Log Answer)
      → Did (create_job p labels checks) tt (called (create_job p' labels' checks') r ∷ log)
      → (p ≡ p') ⊎ Did (create_job p labels checks) tt log
  new-Did p' labels' checks' r log latest = inl refl
  new-Did p' labels' checks' r log (earlier d) = inr d

-- Nothing is created or forgotten.
abbrev pub Same : State → State → Type 0
Same w w' = Tracks w' × (w'.vars ≡ w.vars) × Keeps w.log w'.log

pub Same-trans : (u v w : State) → Same u v → Same v w → Same u w
Same-trans u v w (_, e, k) (t, e', k') = (t, e' ∙ e, λ q a d. k' q a (k q a d))

module _ (env : Env Answer) where
  -- A call that creates nothing.
  pub other-call :
      (q : Request) (w : State)
      → is_create q ≡ false
      → Tracks w
      → Post (λ a w'. Same w w' × Did q a w'.log) (λ h w'. IsThrow h × Same w w') (call env q w)
  unfolding after_call
  other-call q w h t = call-Post env q w (λ a e. (same, rw e latest)) (λ m e. (tt, same))
    where
      same : Same w (after_call env q w)
      same = (
        (λ p labels checks d. t p labels checks (older-Did q _ w.log h d)),
        refl,
        (λ _ _ d. earlier d),
      )

  -- A Job of a case was created and is in `jobs`.
  abbrev pub IsStarted : Text → Case → State → Type 0
  IsStarted target c w =
      (p : Probe) × (p.namespace ≡ c.namespace)
      × Did (create_job p c.labels (checks_of target c)) tt w.log
      × Memᴰ p w.vars

  -- Nothing is forgotten.
  abbrev pub Extends : State → State → Type 0
  Extends w w' = Keeps w.log w'.log × ((p : Probe) → Memᴰ p w.vars → Memᴰ p w'.vars)

  IsStarted-later :
      (target : Text) (c : Case) (w w' : State)
      → Extends w w'
      → IsStarted target c w
      → IsStarted target c w'
  IsStarted-later target c w w' (k, grown) (p, same, created, m) =
      (p, same, k _ _ created, grown p m)

  abbrev pub Stays : Stop → State → Type 0
  Stays h w = IsThrow h × Tracks w

  pub start_probe-Post :
      (target : Text) (c : Case) (w : State)
      → Tracks w
      → Post
          (λ _ w'. Tracks w' × Extends w w' × IsStarted target c w')
          Stays
          (start_probe env target c w)
  unfolding start_probe probe_of after_call
  start_probe-Post target c w t =
      let p : Probe = probe_of w.time c in
      let q : Request = create_job p c.labels (checks_of target c) in
      gets-Post (λ u. u.time) w _
        (and_then-Post
          {Q = λ _ w'. (w'.vars ≡ w.vars) × Did q tt w'.log × Keeps w.log w'.log × Fresh p w w'.log}
          (call-Post env q w
            (λ a e. (
              refl,
              rw e latest,
              (λ _ _ d. earlier d),
              (λ p' l' c' d. new-Did p c.labels (checks_of target c) _ w.log d),
            ))
            (λ m e. (
              tt,
              λ p' l' c' d. t p' l' c' (rejection-Did (create_job p' l' c') q m w.log (rw e at d)),
            )))
          λ _ w1 (same, created, k, fresh). returned (
            (λ p' l' c' d. elim (fresh p' l' c' d) [
              | inl e ↦ Memᴰ.append_right w1.vars (Memᴰ.head e)
              | inr d' ↦ Memᴰ.append_left (p ∷ []) (rw same (t p' l' c' d'))
            ]),
            (k, λ p' m. Memᴰ.append_left (p ∷ []) (rw same m)),
            (p, refl, created, Memᴰ.append_right w1.vars (Memᴰ.head refl)),
          ))
    where
      -- What was created is this Job, or was created before.
      Fresh : Probe → State → Log Answer → Type 0
      Fresh p w log =
          (p' : Probe) (labels : List (Text × Text)) (checks : List Check)
          → Did (create_job p' labels checks) tt log
          → (p' ≡ p) ⊎ Did (create_job p' labels checks) tt w.log

  -- The loop over the cases.
  pub starts-Post :
      (target : Text) (cases : List Case) (w : State)
      → Tracks w
      → Post
          (λ _ w'. Tracks w' × Extends w w' × All (λ c. IsStarted target c w') cases)
          Stays
          (for_each cases (start_probe env target) w)
  unfolding for_each
  starts-Post target [] w t = returned (t, ((λ _ _ d. d), λ _ m. m), tt)
  starts-Post target (c ∷ cases) w t =
      and_then-Post (start_probe-Post target c w t) λ _ w1 (t1, (k1, g1), first).
        weaken-Post (starts-Post target cases w1 t1)
          (λ _ w2 (t2, (k2, g2), rest). (
            t2,
            ((λ q a d. k2 q a (k1 q a d)), λ p m. g2 p (g1 p m)),
            (IsStarted-later target c w1 w2 (k2, g2) first, rest),
          ))
          (λ _ _ bad. bad)

  deletions-Post :
      (ps : List Probe) (w : State)
      → Tracks w
      → Post
          (λ _ w'. Same w w' × All (λ p. Did (delete_job p) tt w'.log) ps)
          (λ h w'. IsThrow h × IsRefused w'.log)
          (for_each ps (λ p. call env (delete_job p)) w)
  unfolding for_each after_call
  deletions-Post [] w t = returned ((t, refl, λ _ _ d. d), tt)
  deletions-Post (p ∷ ps) w t =
      and_then-Post {Q = λ _ w'. Same w w' × Did (delete_job p) tt w'.log}
        (call-Post env (delete_job p) w
          (λ a e. (
            (
              (λ p' l c d. t p' l c (older-Did (delete_job p) _ w.log refl d)),
              refl,
              (λ _ _ d. earlier d),
            ),
            rw e latest,
          ))
          (λ m e. (tt, (p, m, w.log, ap (λ r. called (delete_job p) r ∷ w.log) e))))
        λ _ w1 (s1, first).
          weaken-Post (deletions-Post ps w1 s1.0)
            (λ _ w2 (s2, rest). (Same-trans w w1 w2 s1 s2, (s2.2 _ _ first, rest))) (λ _ _ bad. bad)

  -- The body of the `finally`.
  pub delete_probes-Post :
      (w : State)
      → Tracks w
      → Post
          (λ _ w'. IsClean w'.log × Keeps w.log w'.log)
          (λ h w'. IsThrow h × IsRefused w'.log)
          (delete_probes env w)
  unfolding delete_probes
  delete_probes-Post w t =
      gets-Post (λ u. u.vars) w _
        (weaken-Post (deletions-Post w.vars w t)
          (λ _ w1 ((t1, same, k1), gone). (
            (λ p l c d.
                All-lookup (λ p'. Did (delete_job p') tt w1.log) (rw (sym same) (t1 p l c d)) gone),
            k1,
          ))
          (λ _ _ bad. bad))
