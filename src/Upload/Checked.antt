-- ===== src/Upload/Checked.antt =====
-- What a run of deploy/data/backup-upload.mjs has checked before each of its calls.
use mathlib.Core.Path.{subst}
use cartyx_infrastructure.Base.{
  ℕ, Text, text, [], ◌∷◌, ◌++◌, true, false, not, ◌≡◌, ◌≤◌, text_eq, eq_of_guard, true_of_guard,
  le_of_guard, starts_with, some_of, refl, Bool-cases, inl, inr,
}
use cartyx_infrastructure.Script.{
  Env, Log, Settled, called, Outcome, ok, finishing, or_empty, Stop, throw, exit, diverged,
  and_then,
}
use cartyx_infrastructure.Script.Post.{Post, returned, stopped, weaken-Post}
use cartyx_infrastructure.Script.Discipline.{
  IsThrow, Did, Obeys, Keeps, just-call, Obeys-append, Post-Obeys, after-call, after-throw_if,
}
use cartyx_infrastructure.Upload.{
  LocalManifest, Request, Answer, Settings, State, read_manifest, hash_beside, size_beside,
  put_archive, hash_stored, put_manifest, is_slash, trimmed, last_segment, basename, object_key,
  send, upload, run,
}

-- A name without a slash is no way out of the manifest's directory.
abbrev pub IsPlain : Text → Type 0
IsPlain s = some_of is_slash s ≡ false

last_segment-IsPlain : (s : Text) → IsPlain (last_segment s)
unfolding last_segment
last_segment-IsPlain [] = refl
last_segment-IsPlain (c ∷ s) = elim (Bool-cases (some_of is_slash (c ∷ s))) [
  | inl h ↦ rw h (last_segment-IsPlain s)
  | inr h ↦ rw h h
]

pub basename-IsPlain : (s : Text) → not (text_eq (basename s) s) ≡ false → IsPlain s
unfolding basename
basename-IsPlain s h =
    subst IsPlain (eq_of_guard (basename s) s h) (last_segment-IsPlain (trimmed s))

-- The archive was read, and is what the manifest says of it.
abbrev pub IsChecked : Settings → LocalManifest → Log Answer → Type 0
IsChecked settings m log =
    IsPlain m.file
    × (starts_with (or_empty settings.endpoint) (text "https://") ≡ true)
    × Did (read_manifest (or_empty settings.manifest_path)) m log
    × Did (hash_beside m.file) m.sha256 log
    × ((size : ℕ) × Did (size_beside m.file) size log × (size ≤ 5000000000))

-- What was stored under the key is what the manifest says.
abbrev pub IsStored : LocalManifest → Log Answer → Type 0
IsStored m log =
    ((size : ℕ) × Did (put_archive (object_key m) size) tt log)
    × Did (hash_stored (object_key m)) m.sha256 log

-- When each call is allowed.
abbrev pub Allowed : Settings → (q : Request) → Log Answer → Type 0
Allowed settings (put_archive key size) log =
    (m : LocalManifest) × (key ≡ object_key m)
    × IsChecked settings m log
    × Did (size_beside m.file) size log
Allowed settings (put_manifest key m) log =
    (key ≡ object_key m ++ text ".json") × IsChecked settings m log × IsStored m log
Allowed settings _ log = Unit

IsChecked-kept :
    (settings : Settings) {m : LocalManifest} {log log' : Log Answer}
    → Keeps log log'
    → IsChecked settings m log
    → IsChecked settings m log'
IsChecked-kept settings k (plain, https, read, hashed, (size, sized, small)) =
    (plain, https, k _ _ read, k _ _ hashed, (size, k _ _ sized, small))

module _ (env : Env Answer) (settings : Settings) where
  -- A run that returns has published the manifest.
  abbrev Published : Unit {0} → State → Type 0
  Published _ w =
      Obeys (Allowed settings) w.log
      × ((m : LocalManifest) × Did (put_manifest (object_key m ++ text ".json") m) tt w.log)

  abbrev Bad : Stop → State → Type 0
  Bad h w = IsThrow h × Obeys (Allowed settings) w.log

  send-Post :
      (m : LocalManifest) (w : State)
      → IsChecked settings m w.log
      → Obeys (Allowed settings) w.log
      → Post Published Bad (send env m w)
  unfolding send
  send-Post m w c o =
      after-call env (Allowed settings) (size_beside m.file) w tt o λ size w1 (sized, k1, o1, _).
        after-call env (Allowed settings) (put_archive (object_key m) size) w1
          (m, refl, IsChecked-kept settings k1 c, sized) o1
          λ _ w2 (put, k2, o2, _).
            after-call env (Allowed settings) (hash_stored (object_key m)) w2 tt o2
              λ stored w3 (read, k3, o3, _).
                after-throw_if env (Allowed settings) _ _ w3 _ o3 λ matches.
                  let same = eq_of_guard stored m.sha256 matches in
                  weaken-Post
                    (just-call env (Allowed settings)
                      (put_manifest (object_key m ++ text ".json") m) w3
                      (
                        refl,
                        IsChecked-kept settings k3
                            (IsChecked-kept settings k2 (IsChecked-kept settings k1 c)),
                        (
                          (size, k3 _ _ put),
                          subst (λ t. Did (hash_stored (object_key m)) t w3.log) same read,
                        ),
                      )
                      o3)
                    (λ _ w4 (done, _, o4, _). (o4, (m, done))) (λ _ _ bad. bad)

  finishing-Post :
      {r : Outcome (Unit {0}) × State}
      → Post Published Bad r
      → Post Published Bad (finishing r (λ w. (ok tt, w)))
  unfolding finishing and_then
  finishing-Post (returned p) = returned p
  finishing-Post (stopped {h = throw e} p) = stopped p
  finishing-Post (stopped {h = exit n} p) = stopped p
  finishing-Post (stopped {h = diverged} p) = stopped p

  upload-Post :
      (w : State) → Obeys (Allowed settings) w.log → Post Published Bad (upload env settings w)
  unfolding upload basename
  upload-Post w o =
      after-call env (Allowed settings) (read_manifest (or_empty settings.manifest_path)) w tt o
        λ m w1 (known, k1, o1, _). after-throw_if env (Allowed settings) _ _ w1 _ o1 λ plain.
          after-throw_if env (Allowed settings) _ _ w1 _ o1 λ _.
            after-throw_if env (Allowed settings) _ _ w1 _ o1 λ _.
              after-throw_if env (Allowed settings) _ _ w1 _ o1 λ _.
                after-throw_if env (Allowed settings) _ _ w1 _ o1 λ _.
                  after-throw_if env (Allowed settings) _ _ w1 _ o1 λ https.
                    after-call env (Allowed settings) (hash_beside m.file) w1 tt o1
                      λ sum w2 (hashed, k2, o2, _).
                        after-throw_if env (Allowed settings) _ _ w2 _ o2 λ matches.
                          after-call env (Allowed settings) (size_beside m.file) w2 tt o2
                            λ size w3 (sized, k3, o3, _).
                              after-throw_if env (Allowed settings) _ _ w3 _ o3 λ small.
                                finishing-Post (
                                  send-Post m w3
                                    (
                                      basename-IsPlain m.file plain,
                                      true_of_guard _ https,
                                      k3 _ _ (k2 _ _ known),
                                      k3 _ _ (
                                          subst (λ t. Did (hash_beside m.file) t w2.log)
                                            (eq_of_guard sum m.sha256 matches) hashed),
                                      (size, sized, le_of_guard 5000000000 size small),
                                    )
                                    o3)

  run-Post : (now : ℕ) → Post Published Bad (run env settings now)
  run-Post now = upload-Post _ tt

  -- Whenever a run publishes a manifest under a key, the key is the archive's with `.json`, the
  -- archive has a plain name beside the manifest, at most 5 GB and the manifest's hash, it was put
  -- under its key with an acknowledgement, and what was read back from there has that hash too.
  pub publication-IsStored :
      (now : ℕ) (later log : Log Answer) (key : Text) (m : LocalManifest) (r : Settled (Unit {0}))
      → (run env settings now).1.log ≡ later ++ (called (put_manifest key m) r ∷ log)
      → (key ≡ object_key m ++ text ".json") × IsChecked settings m log × IsStored m log
  publication-IsStored now later log key m r e =
      Obeys-append (Allowed settings) later _ r log
        (rw e at (Post-Obeys (Allowed settings) (run-Post now)))

  -- Whenever a run puts an archive, it is the one that the manifest names, read over HTTPS settings,
  -- with a plain name, at most 5 GB and the manifest's hash, and the length sent is its size.
  pub upload-IsChecked :
      (now : ℕ) (later log : Log Answer) (key : Text) (size : ℕ) (r : Settled (Unit {0}))
      → (run env settings now).1.log ≡ later ++ (called (put_archive key size) r ∷ log)
      → (m : LocalManifest) × (key ≡ object_key m)
        × IsChecked settings m log
        × Did (size_beside m.file) size log
  upload-IsChecked now later log key size r e =
      Obeys-append (Allowed settings) later _ r log
        (rw e at (Post-Obeys (Allowed settings) (run-Post now)))

  -- A run that ends without an error has published its manifest, with an acknowledgement.
  pub upload_success_is_complete :
      (now : ℕ)
      → (run env settings now).0 ≡ ok tt
      → (m : LocalManifest) × Did
          (put_manifest (object_key m ++ text ".json") m)
          tt
          (run env settings now).1.log
  upload_success_is_complete now e = done (run-Post now) e
    where
      done :
          {r : Outcome (Unit {0}) × State}
          → Post Published Bad r
          → r.0 ≡ ok tt
          → (m : LocalManifest) × Did (put_manifest (object_key m ++ text ".json") m) tt r.1.log
      done (returned p) e = p.1
      done (stopped p) e = cc e
