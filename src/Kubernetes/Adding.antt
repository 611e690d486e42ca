-- ===== src/Kubernetes/Adding.antt =====
-- `provision-secret` of deploy/data/kubernetes.mjs makes each call only where it is founded.
use mathlib.Core.Path.{subst}
use cartyx_infrastructure.Base.{
  ℕ, Text, text, [], ◌∷◌, false, map, ◌≡◌, ◌≤◌, ◌==◌, inl, inr, refl, ap, sym, Bool-cases, text_eq,
  eq_of_text_eq, true_of_guard, le_of_guard, length, arith,
}
use cartyx_infrastructure.Script.{Env, Log, called, resolved, call, after_call, given}
use cartyx_infrastructure.Script.Post.{Post, returned, call-Post, weaken-Post, and_then-Post}
use cartyx_infrastructure.Script.Discipline.{
  IsThrow, Did, latest, earlier, Keeps, Obeys, Kept, Adds, just-call, just-throw_if, after-call,
  after-throw_if, for_each-Post,
}
use cartyx_infrastructure.Script.Blocks.{finally-Post, append-Did}
use cartyx_infrastructure.Kubernetes.Requests.{
  Data, entry, AppSecret, Answer, Settings, State, get_name, read_secret, exists, provision,
  read_file, make_scratch, write_patch, patch_secret, remove_scratch, create_from_files,
}
use cartyx_infrastructure.Kubernetes.Secrets.{
  data_secret, app_key, credential_files, directory_of, file_in, trim, send_patch, add_app_key,
  check_file, create_all, provision_secret,
}
use cartyx_infrastructure.Kubernetes.Ends.{IsProvided}
use cartyx_infrastructure.Kubernetes.Trust.{
  Allowed, Plain, IsAdmitted, IsAbsent, IsFilled, IsAddition, environment, here,
}
use cartyx_infrastructure.Kubernetes.Tidy.{
  IsTidy, Plain-Barren, Plain-Allowed, Plain-MadeNothing, Fails, Plain-Fails, rejection-Fails,
  after-early_call, after-early_throw_if, After, call-After, removal-Post,
}

positive : (n : ℕ) → (n == 0) ≡ false → 1 ≤ n
positive n h = ground arith

module _ (env : Env Answer) (settings : Settings) (admitted : IsAdmitted settings) where
  abbrev pub Provides : Unit {0} → State → Type 0
  Provides _ w =
      (Obeys (Allowed settings) w.log × IsTidy settings w.log) × IsProvided settings w.log

  Plain-Provides :
      (w : State) → Obeys (Plain settings) w.log → IsProvided settings w.log → Provides tt w
  Plain-Provides w o p = ((Plain-Allowed settings w.log o, inl (Plain-MadeNothing settings o)), p)

  check_file-Post :
      (directory name : Text) (w : State)
      → Obeys (Plain settings) w.log
      → Post
          (Adds env (Plain settings) (λ _. IsFilled (file_in directory name)) w)
          (Kept env (Plain settings))
          (check_file env directory name w)
  unfolding check_file
  check_file-Post directory name w o =
      after-call env (Plain settings) (exists (file_in directory name)) w ((admitted, tt, tt), tt) o
        λ present w1 (d, k1, o1, _). after-throw_if env (Plain settings) _ _ w1 _ o1 λ there.
          after-call env (Plain settings) (read_file (file_in directory name)) w1
            ((admitted, tt, tt), tt) o1
            λ content w2 (read, k2, o2, _). just-throw_if env (Plain settings) _ _ w2 o2 λ filled. (
              o2,
              (λ q a x. k2 q a (k1 q a x)),
              (
                k2 _ _ (
                    subst (λ b. Did (exists (file_in directory name)) b w1.log)
                      (true_of_guard present there) d),
                (content, read, positive (length content) filled),
              ),
            )

  IsAddition-kept :
      (secret : AppSecret) (value : Text) {log log' : Log Answer}
      → Keeps log log'
      → IsAddition settings secret value log
      → IsAddition settings secret value log'
  IsAddition-kept secret value k (read, lacks, found, long, other) =
      (k _ _ read, lacks, k _ _ found, long, other)

  create_all-Post :
      (w : State)
      → IsAbsent (here settings) data_secret w.log
      → Obeys (Plain settings) w.log
      → Post Provides (Fails settings env) (create_all env (environment settings) (here settings) w)
  unfolding create_all credential_files
  create_all-Post w (printed, d, blank) o =
      let directory : Text = directory_of (environment settings) in
      let files : Data = map (λ name. (name, file_in directory name)) credential_files in
      after-early_call settings env (provision (environment settings)) w ((admitted, tt, tt), tt) o
        λ _ w1 (made, k1, o1, _).
          and_then-Post
            (weaken-Post
              (for_each-Post env (Plain settings) (λ name. IsFilled (file_in directory name))
                (λ _ _ _ k (there, (content, read, filled)).
                  (k _ _ there, (content, k _ _ read, filled)))
                (check_file env directory) w1 (λ name u _ ou. check_file-Post directory name u ou)
                credential_files w1 (λ _ _ x. x) o1)
              (λ _ _ added. added) (Plain-Fails settings env))
            λ _ w2 (o2, k2, filled).
              weaken-Post
                (just-call env (Plain settings) (create_from_files (here settings) files) w2
                  (
                    (
                      admitted,
                      refl,
                      ((printed, k2 _ _ (k1 _ _ d), blank), k2 _ _ made, refl, filled),
                    ),
                    tt,
                  )
                  o2)
                (λ _ w3 (done, _, o3, _). Plain-Provides w3 o3 (inr (inr (files, done))))
                (Plain-Fails settings env)

  send_patch-Post :
      (secret : AppSecret) (value scratch : Text) (base : Log Answer) (w : State)
      → IsAddition settings secret value w.log
      → After settings env base w
      → Post
          (λ _ w'.
            After settings env base w'
            × ((path : Text) × Did (patch_secret (here settings) path) tt w'.log))
          (λ h w'. IsThrow h × After settings env base w')
          (send_patch env (here settings) secret value scratch w)
  unfolding send_patch
  send_patch-Post secret value scratch base w addition a =
      let path : Text = file_in scratch (text "patch.json") in
      and_then-Post
        (call-After settings env base (write_patch path secret.resource_version value) w tt
          (admitted, tt, (secret, refl, addition)) a)
        λ _ w1 (a1, written, k1).
          weaken-Post
            (call-After settings env base (patch_secret (here settings) path) w1 tt
              (admitted, refl, (secret, value, written, IsAddition-kept secret value k1 addition))
              a1)
            (λ _ w2 (a2, patched, _). (a2, (path, patched))) (λ _ _ bad. bad)

  scratch-Post :
      (w : State)
      → Obeys (Plain settings) w.log
      → Post
          (λ path w'.
            After settings env (called make_scratch (resolved path) ∷ w.log) w'
            × Keeps w.log w'.log)
          (Fails settings env)
          (call env make_scratch w)
  unfolding after_call
  scratch-Post w o =
      call-Post env make_scratch w
        (λ path e. (
          (
            ([], ap (λ r. called make_scratch r ∷ w.log) e, tt),
            ((admitted, tt, tt), Plain-Allowed settings w.log o),
          ),
          (λ _ _ d. earlier d),
        ))
        (λ m e. (
          tt,
          subst
              (λ r.
                Obeys (Allowed settings) (called make_scratch r ∷ w.log)
                × IsTidy settings (called make_scratch r ∷ w.log))
              (sym e) (rejection-Fails settings env make_scratch m w (admitted, tt, tt) o),
        ))

  remove-Post :
      (path : Text) (before : Log Answer) (w : State)
      → Obeys (Plain settings) before
      → After settings env (called make_scratch (resolved path) ∷ before) w
      → Post
          (λ _ w'. Keeps w.log w'.log × (Obeys (Allowed settings) w'.log × IsTidy settings w'.log))
          (Fails settings env)
          (call env (remove_scratch path) w)
  remove-Post path before w o a =
      weaken-Post
        (removal-Post settings env make_scratch path (remove_scratch path) before w
          (admitted, tt, made a) (Plain-Barren settings before o) a)
        (λ _ w1 (_, k1, o1, removed). (k1, (o1, inr (inr (path, removed)))))
        (λ h w1 (thrown, (o1, removed)). (thrown, (o1, inr (inr (path, removed)))))
    where
      made :
          After settings env (called make_scratch (resolved path) ∷ before) w
          → Did make_scratch path w.log
      made ((middle, e, _), _) = rw e (append-Did middle latest)

  add_app_key-Post :
      (secret : AppSecret) (w : State)
      → Did (read_secret (here settings)) secret w.log
      → given (entry secret.contents app_key) ≡ false
      → Obeys (Plain settings) w.log
      → Post Provides
          (Fails settings env)
          (add_app_key env (environment settings) (here settings) secret w)
  unfolding add_app_key
  add_app_key-Post secret w read lacks o =
      let directory : Text = directory_of (environment settings) in
      after-early_call settings env (exists (file_in directory (text "tls.p12"))) w
        ((admitted, tt, tt), tt) o
        λ present w1 (_, k1, o1, _). after-early_throw_if settings env _ _ w1 _ o1 λ _.
          after-early_call settings env (provision (environment settings)) w1
            ((admitted, tt, tt), tt) o1
            λ _ w2 (_, k2, o2, _).
              after-early_call settings env (read_file (file_in directory app_key)) w2
                ((admitted, tt, tt), tt) o2
                λ value w3 (found, k3, o3, _). after-early_throw_if settings env _ _ w3 _ o3 λ long.
                  after-early_throw_if settings env _ _ w3 _ o3 λ other.
                    and_then-Post (scratch-Post w3 o3) λ scratch w4 (a4, k4).
                      let addition : IsAddition settings secret value w4.log = (
                        k4 _ _ (k3 _ _ (k2 _ _ (k1 _ _ read))),
                        lacks,
                        k4 _ _ found,
                        le_of_guard (length (trim value)) 32 long,
                        other,
                      ) in
                      finally-Post
                        {E = After settings env (called make_scratch (resolved scratch) ∷ w3.log)}
                        (send_patch-Post secret value scratch
                          (called make_scratch (resolved scratch) ∷ w3.log) w4 addition a4)
                        (λ _ w5 (a5, (path, patched)).
                          weaken-Post (remove-Post scratch w3.log w5 o3 a5)
                            (λ _ w6 (k6, tidy). (tidy, inr (inl (path, k6 _ _ patched))))
                            (λ _ _ bad. bad))
                        (λ w5 a5.
                          weaken-Post (remove-Post scratch w3.log w5 o3 a5) (λ _ _ (_, tidy). tidy)
                            (λ _ _ bad. bad))

  pub provision_secret-Post :
      (w : State)
      → Obeys (Plain settings) w.log
      → Post Provides
          (Fails settings env)
          (provision_secret env (environment settings) (here settings) w)
  unfolding provision_secret
  provision_secret-Post w o =
      after-early_call settings env (get_name (here settings) data_secret) w
        ((admitted, refl, tt), tt) o
        λ existing w1 (named, k1, o1, _). elim (Bool-cases (text_eq (trim existing) [])) [
          | inl h ↦ rw h (create_all-Post w1 (existing, named, eq_of_text_eq _ _ h) o1)
          | inr h ↦ rw h (
              after-early_call settings env (read_secret (here settings)) w1
                ((admitted, refl, tt), tt) o1
                λ secret w2 (read, k2, o2, _).
                  elim (Bool-cases (given (entry secret.contents app_key))) [
                    | inl h' ↦ rw h' (returned (Plain-Provides w2 o2 (inl (secret, read, h'))))
                    | inr h' ↦ rw h' (add_app_key-Post secret w2 read h' o2)
                  ])
        ]
