-- ===== src/Secrets/Writing.antt =====
-- The keys and the files that deploy/data/secrets.mjs writes, step by step.
use mathlib.Core.Path.{subst}
use cartyx_infrastructure.Base.{
  Text, text, List, [], ◌∷◌, ◌++◌, All, Bool, true, false, ◌≡◌, ◌⊎◌, inl, inr, refl, if◌then◌else◌,
}
use cartyx_infrastructure.Script.{Env, Log, ok}
use cartyx_infrastructure.Script.Post.{Post, returned, weaken-Post, and_then-Post}
use cartyx_infrastructure.Script.Discipline.{
  Did, Obeys, Keeps, Kept, Adds, just-call, after-call, after-throw_if, for_each-Post,
}
use cartyx_infrastructure.Secrets.{
  Request, Answer, State, create_directory, change_mode, exists, random_hex, write_new, write_file,
  request_certificate, export_certificate, app_key, key_names, file_in, certificate_config,
  write_key, add_app_key, create_all,
}

-- There were credentials, without the application's key.
abbrev pub LacksAppKey : Text → Log Answer → Type 0
LacksAppKey directory log =
    Did (exists (file_in directory (text "tls.p12"))) true log
    × Did (exists (file_in directory app_key)) false log

-- There were no credentials and no directory, and the run has made it.
abbrev pub IsFresh : Text → Log Answer → Type 0
IsFresh directory log =
    Did (exists (file_in directory (text "tls.p12"))) false log
    × Did (exists directory) false log
    × Did (create_directory directory) tt log

-- A key is random bytes that the run has drawn.
abbrev pub IsDrawn : Text → Log Answer → Type 0
IsDrawn content log =
    (value : Text) × (content ≡ value ++ text "\n") × Did (random_hex 32) value log

-- When each call is allowed.
abbrev pub Allowed : Text → Request → Log Answer → Type 0
Allowed directory (write_new path content) log =
    IsDrawn content log
    × (((path ≡ file_in directory app_key) × LacksAppKey directory log) ⊎ IsFresh directory log)
Allowed directory (write_file path content) log = IsFresh directory log
Allowed directory (request_certificate d) log = IsFresh directory log
Allowed directory (export_certificate d) log = IsFresh directory log
Allowed directory _ log = Unit

-- The key was written.
abbrev pub HasKey : Text → Text → Log Answer → Type 0
HasKey directory name log = (value : Text) × Did (write_new (file_in directory name) value) tt log

-- What there is at the end of a run that does not fail.
abbrev pub IsProvided : Text → Log Answer → Type 0
IsProvided directory log =
    (Did (exists (file_in directory (text "tls.p12"))) true log
      × (Did (exists (file_in directory app_key)) true log ⊎ HasKey directory app_key log))
    ⊎ (IsFresh directory log
        × All (λ name. HasKey directory name log) key_names
        × Did (request_certificate directory) tt log
        × Did (export_certificate directory) tt log)

module _ (env : Env Answer) (directory : Text) where
  abbrev P : Request → Log Answer → Type 0
  P = Allowed directory

  write_key-Post :
      (name : Text) (w : State)
      → Obeys P w.log
      → (((file_in directory name ≡ file_in directory app_key) × LacksAppKey directory w.log)
          ⊎ IsFresh directory w.log)
      → Post
          (Adds env P (λ _. HasKey directory name) w)
          (Kept env P)
          (write_key env directory name w)
  unfolding write_key
  write_key-Post name w o may =
      after-call env P (random_hex 32) w tt o λ value w1 (drawn, k1, o1, _).
        weaken-Post
          (just-call env P (write_new (file_in directory name) (value ++ text "\n")) w1
            ((value, refl, drawn), kept k1 may) o1)
          (λ _ w2 (done, k2, o2, _). (o2, (λ q a d. k2 q a (k1 q a d)), (_, done))) (λ _ _ bad. bad)
    where
      kept :
          {log log' : Log Answer}
          → Keeps log log'
          → (((file_in directory name ≡ file_in directory app_key) × LacksAppKey directory log)
              ⊎ IsFresh directory log)
          → (((file_in directory name ≡ file_in directory app_key) × LacksAppKey directory log')
              ⊎ IsFresh directory log')
      kept k (inl (e, (a, b))) = inl (e, (k _ _ a, k _ _ b))
      kept k (inr (a, b, c)) = inr (k _ _ a, k _ _ b, k _ _ c)

  IsFresh-kept :
      {log log' : Log Answer} → Keeps log log' → IsFresh directory log → IsFresh directory log'
  IsFresh-kept k (a, b, c) = (k _ _ a, k _ _ b, k _ _ c)

  keys_kept :
      (names : List Text) {log log' : Log Answer}
      → Keeps log log'
      → All (λ name. HasKey directory name log) names
      → All (λ name. HasKey directory name log') names
  keys_kept [] k t = t
  keys_kept (name ∷ names) k ((v, d), t) = ((v, k _ _ d), keys_kept names k t)

  -- A run that returns has provided everything.
  abbrev pub Done : Unit {0} → State → Type 0
  Done _ w = Obeys P w.log × IsProvided directory w.log

  pub add_app_key-Post :
      (w : State)
      → Obeys P w.log
      → Did (exists (file_in directory (text "tls.p12"))) true w.log
      → Post Done (Kept env P) (add_app_key env directory w)
  unfolding add_app_key
  add_app_key-Post w o here =
      after-call env P (exists (file_in directory app_key)) w tt o
        λ present w1 (d, k1, o1, _). go present w1 d (k1 _ _ here) o1
    where
      go :
          (present : Bool) (w1 : State)
          → Did (exists (file_in directory app_key)) present w1.log
          → Did (exists (file_in directory (text "tls.p12"))) true w1.log
          → Obeys P w1.log
          → Post Done
              (Kept env P)
              ((if present then (λ u. (ok tt, u)) else write_key env directory app_key) w1)
      go true w1 d h o1 = returned (o1, inl (h, inl d))
      go false w1 d h o1 =
          weaken-Post (write_key-Post app_key w1 o1 (inl (refl, (h, d))))
            (λ _ w2 (o2, k2, key). (o2, inl (k2 _ _ h, inr key))) (λ _ _ bad. bad)

  pub create_all-Post :
      (environment : Text) (w : State)
      → Obeys P w.log
      → Did (exists (file_in directory (text "tls.p12"))) false w.log
      → Post Done (Kept env P) (create_all env environment directory w)
  unfolding create_all
  create_all-Post environment w o none_here =
      after-call env P (exists directory) w tt o λ incomplete w1 (d1, k1, o1, _).
        after-throw_if env P incomplete _ w1 _ o1 λ absent.
          after-call env P (create_directory directory) w1 tt o1 λ _ w2 (d2, k2, o2, _).
            let fresh : IsFresh directory w2.log = (
              k2 _ _ (k1 _ _ none_here),
              k2 _ _ (subst (λ b. Did (exists directory) b w1.log) absent d1),
              d2,
            ) in
            and_then-Post
              (for_each-Post env P (HasKey directory) (λ _ _ _ k (v, d). (v, k _ _ d))
                (write_key env directory) w2
                (λ name u k o'.
                  write_key-Post name u o' (inr (k _ _ fresh.0, k _ _ fresh.1, k _ _ fresh.2)))
                key_names w2 (λ _ _ d. d) o2)
              λ _ w3 (o3, k3, keys).
                after-call env P
                  (write_file (file_in directory (text "openssl.cnf"))
                    (certificate_config environment))
                  w3 (k3 _ _ fresh.0, k3 _ _ fresh.1, k3 _ _ fresh.2) o3
                  λ _ w4 (_, k4, o4, _).
                    let fresh4 = IsFresh-kept (λ q a d. k4 q a (k3 q a d)) fresh in
                    after-call env P (request_certificate directory) w4 fresh4 o4
                      λ _ w5 (asked, k5, o5, _).
                        after-call env P (export_certificate directory) w5 (IsFresh-kept k5 fresh4)
                          o5
                          λ _ w6 (exported, k6, o6, _).
                            weaken-Post
                              (just-call env P
                                (change_mode (file_in directory (text "tls.p12")) 420) w6 tt o6)
                              (λ _ w7 (_, k7, o7, _). (
                                o7,
                                inr (
                                  IsFresh-kept (λ q a d. k7 q a (k6 q a (k5 q a d))) fresh4,
                                  keys_kept key_names (λ q a d. k7 q a (k6 q a (k5 q a (k4 q a d))))
                                      keys,
                                  k7 _ _ (k6 _ _ asked),
                                  k7 _ _ exported,
                                ),
                              ))
                              (λ _ _ bad. bad)
