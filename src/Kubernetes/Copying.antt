-- ===== src/Kubernetes/Copying.antt =====
-- `provision-backup-secret` of deploy/data/kubernetes.mjs makes each call only where it is founded.
use cartyx_infrastructure.Base.{
  Text, text, List, [], ◌∷◌, ◌++◌, All, true, Option, none, some, map, ◌≡◌, inl, inr, refl, ap, ◌∙◌,
  sym, Bool-cases, text_eq, eq_of_text_eq, true_of_guard,
}
use cartyx_infrastructure.Script.{Env, given, or_empty}
use cartyx_infrastructure.Script.Post.{Post, returned, weaken-Post, and_then-Post}
use cartyx_infrastructure.Script.Discipline.{Obeys, Kept, just-call, after-call, after-throw_if}
use cartyx_infrastructure.Kubernetes.Requests.{
  Data, entry, Answer, Settings, State, get_name, read_source, create_secret,
}
use cartyx_infrastructure.Kubernetes.Secrets.{
  source_keys, backup_secret, platform, platform_backup, trim, copy_keys, provision_backup_secret,
}
use cartyx_infrastructure.Kubernetes.Ends.{IsBackedUp}
use cartyx_infrastructure.Kubernetes.Trust.{Plain, IsAdmitted, environment, here}

some_of_given : (v : Option Text) → given v ≡ true → v ≡ some (or_empty v)
some_of_given none h = cc h
some_of_given (some s) h = refl

-- An entry has the value of the source, which is not empty.
abbrev IsEntry : Data → Text × Text → Type 0
IsEntry source e = (entry source e.0 ≡ some e.1) × (given (some e.1) ≡ true)

keys-append :
    (copied : Data) (key value : Text) (keys : List Text)
    → map (λ e. e.0) (copied ++ ((key, value) ∷ [])) ++ keys ≡ map (λ e. e.0) copied ++ (key ∷ keys)
keys-append [] key value keys = refl
keys-append (e ∷ copied) key value keys = ap (λ l. e.0 ∷ l) (keys-append copied key value keys)

All-append_one :
    (F : Text × Text → Type 0) (copied : Data) (e : Text × Text)
    → All F copied
    → F e
    → All F (copied ++ (e ∷ []))
All-append_one F [] e fs f = (f, tt)
All-append_one F (c ∷ copied) e (f', fs) f = (f', All-append_one F copied e fs f)

append_nothing : (l : List Text) → l ++ [] ≡ l
append_nothing [] = refl
append_nothing (x ∷ l) = ap (λ t. x ∷ t) (append_nothing l)

module _ (env : Env Answer) (settings : Settings) (admitted : IsAdmitted settings) where
  copy_keys-Post :
      (source : Data) (keys : List Text) (copied : Data) (w : State)
      → All (IsEntry source) copied
      → Obeys (Plain settings) w.log
      → Post
          (λ contents w'.
            (w' ≡ w)
            × (map (λ e. e.0) contents ≡ map (λ e. e.0) copied ++ keys)
            × All (IsEntry source) contents)
          (Kept env (Plain settings))
          (copy_keys source keys copied w)
  unfolding copy_keys
  copy_keys-Post source [] copied w fs o =
      returned (refl, sym (append_nothing (map (λ e. e.0) copied)), fs)
  copy_keys-Post source (key ∷ keys) copied w fs o =
      after-throw_if env (Plain settings) _ _ w _ o λ present.
        let value : Text = or_empty (entry source key) in
        let e : entry source key ≡ some value = some_of_given _ (true_of_guard _ present) in
        weaken-Post
          (copy_keys-Post source keys (copied ++ ((key, value) ∷ [])) w
            (All-append_one (IsEntry source) copied (key, value) fs
              (e, ap given (sym e) ∙ true_of_guard _ present))
            o)
          (λ contents w' (same, names, entries).
            (same, names ∙ keys-append copied key value keys, entries))
          (λ _ _ bad. bad)

  abbrev pub Copies : Unit {0} → State → Type 0
  Copies _ w = Obeys (Plain settings) w.log × IsBackedUp settings w.log

  pub provision_backup_secret-Post :
      (w : State)
      → or_empty settings.action ≡ text "provision-backup-secret"
      → Obeys (Plain settings) w.log
      → Post Copies
          (Kept env (Plain settings))
          (provision_backup_secret env (environment settings) (here settings) w)
  unfolding provision_backup_secret
  provision_backup_secret-Post w chosen o = after-throw_if env (Plain settings) _ _ w _ o λ cluster.
      after-call env (Plain settings) (get_name (here settings) backup_secret) w
        ((admitted, refl, tt), tt) o
        λ printed w1 (d, k1, o1, _). elim (Bool-cases (text_eq (trim printed) [])) [
          | inr h ↦ rw h (returned (o1, inl (printed, d, h)))
          | inl h ↦ rw h (
              after-call env (Plain settings) (read_source platform platform_backup) w1
                ((admitted, (refl, refl, chosen), tt), tt) o1
                λ source w2 (read, k2, o2, _).
                  and_then-Post (copy_keys-Post source source_keys [] w2 tt o2)
                    λ contents w3 (same, names, entries).
                      weaken-Post
                        (just-call env (Plain settings)
                          (create_secret (here settings) backup_secret contents) w3
                          (
                            (
                              admitted,
                              refl,
                              (
                                chosen,
                                true_of_guard _ cluster,
                                (refl, (printed, (rw same (k2 _ _ d)), eq_of_text_eq _ _ h)),
                                (source, (rw same read), (names, entries)),
                              ),
                            ),
                            tt,
                          )
                          (rw same o2))
                        (λ _ w4 (made, _, o4, _). (o4, inr (contents, made))) (λ _ _ bad. bad))
        ]
