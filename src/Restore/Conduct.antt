-- ===== src/Restore/Conduct.antt =====
-- The parts of deploy/data/restore-cluster.mjs make each call only where it is allowed.
use mathlib.Core.Path.{subst}
use cartyx_infrastructure.Base.{
  ℕ, Text, false, not, ◌==◌, ◌≡◌, ◌≤◌, text_eq, drop_last, eq_of_guard, true_of_guard, le_of_guard,
  both_of_guard, number_of_guard,
}
use cartyx_infrastructure.Script.{Env, Log, resolved}
use cartyx_infrastructure.Script.Post.{Post, returned, weaken-Post}
use cartyx_infrastructure.Script.Discipline.{
  Did, Obeys, Kept, Adds, after-call, just-throw_if, after-throw_if, after-settled, for_each-Post,
}
use cartyx_infrastructure.Restore.Requests.{
  Completion, Answer, Settings, State, get_completion, read_defaults, read_storage, download,
  hash_file, member_manifest, member_config, read_chart_file,
}
use cartyx_infrastructure.Restore.Checks.{
  is_digest, is_invalid, differs, read_marker, check_images, fetch_archive, check_file,
  check_archive,
}
use cartyx_infrastructure.Restore.Trust.{Allowed, IsMarker, IsMatched, IsWhole, IsSameFile, IsOwn}

is_invalid-IsMarker :
    (e key archive bucket : Text) (size : ℕ) (m : Completion) (log : Log Answer)
    → is_invalid e key m ≡ false
    → Did (get_completion bucket key) (record { content_length = size; body = resolved m }) log
    → size ≤ 1048576
    → IsMarker e key archive m log
is_invalid-IsMarker e key archive bucket size m log h d small =
    let (h1, digest) = both_of_guard _ (not (is_digest m.sha256)) h in
    let (h2, k) = both_of_guard _ (not (text_eq m.key (drop_last 5 key))) h1 in
    let (f, n) = both_of_guard (not (m.format == 2)) (not (text_eq m.environment e)) h2 in
    (
      number_of_guard _ _ f,
      eq_of_guard _ _ n,
      eq_of_guard _ _ k,
      true_of_guard _ digest,
      (bucket, size, d, small),
    )

module _ (env : Env Answer) (settings : Settings) (now : ℕ) (e key archive : Text) where
  pub read_marker-Post :
      (bucket : Text) (w : State)
      → Obeys (Allowed settings now) w.log
      → Post
          (Adds env (Allowed settings now) (IsMarker e key archive) w)
          (Kept env (Allowed settings now))
          (read_marker env e bucket key w)
  unfolding read_marker
  read_marker-Post bucket w o =
      after-call env (Allowed settings now) (get_completion bucket key) w tt o
        λ response w1 (d, k, o1, _). after-throw_if env (Allowed settings now) _ _ w1 _ o1 λ small.
          after-settled env (Allowed settings now) response.body w1 _ o1 λ m body.
            after-throw_if env (Allowed settings now) (is_invalid e key m) _ w1 _ o1 λ valid.
              returned (
                o1,
                k,
                is_invalid-IsMarker e key archive bucket response.content_length m w1.log valid
                    (subst
                      (λ b.
                        Did (get_completion bucket key)
                          (record { content_length = response.content_length; body = b }) w1.log)
                      body d)
                    (le_of_guard 1048576 response.content_length small),
              )

  pub check_images-Post :
      (m : Completion) (w : State)
      → Obeys (Allowed settings now) w.log
      → Post
          (Adds env (Allowed settings now) (λ _. IsMatched e key archive m) w)
          (Kept env (Allowed settings now))
          (check_images env e m w)
  unfolding check_images
  check_images-Post m w o =
      after-call env (Allowed settings now) read_defaults w tt o λ images w1 (d, k1, o1, _).
        after-call env (Allowed settings now) (read_storage e) w1 tt o1 λ storage w2 (_, k2, o2, _).
          after-throw_if env (Allowed settings now) _ _ w2 _ o2 λ same.
            let (c, j) = both_of_guard (not (text_eq m.cassandra_image images.cassandra)) _ same in
            returned (
              o2,
              (λ q a known. k2 q a (k1 q a known)),
              (images, k2 _ _ d, eq_of_guard _ _ c, eq_of_guard _ _ j),
            )

  pub fetch_archive-Post :
      (bucket : Text) (m : Completion) (w : State)
      → Obeys (Allowed settings now) w.log
      → Post
          (Adds env (Allowed settings now) (λ _. IsWhole e key archive m) w)
          (Kept env (Allowed settings now))
          (fetch_archive env bucket archive m w)
  unfolding fetch_archive
  fetch_archive-Post bucket m w o =
      after-call env (Allowed settings now) (download bucket m.key archive) w tt o
        λ _ w1 (_, k1, o1, _).
          after-call env (Allowed settings now) (hash_file archive) w1 tt o1
            λ sum w2 (d, k2, o2, _). just-throw_if env (Allowed settings now) _ _ w2 o2 λ same. (
              o2,
              (λ q a known. k2 q a (k1 q a known)),
              subst (λ t. Did (hash_file archive) t w2.log) (eq_of_guard sum m.sha256 same) d,
            )

  check_file-Post :
      (f : Text × Text) (w : State)
      → Obeys (Allowed settings now) w.log
      → Post
          (Adds env (Allowed settings now) (λ _. IsSameFile f) w)
          (Kept env (Allowed settings now))
          (check_file env f w)
  unfolding check_file
  check_file-Post (name, content) w o = after-throw_if env (Allowed settings now) _ _ w _ o λ plain.
      after-call env (Allowed settings now) (read_chart_file name) w tt o λ kept w1 (d, k1, o1, _).
        just-throw_if env (Allowed settings now) _ _ w1 o1 λ same. (
          o1,
          k1,
          (
            true_of_guard _ plain,
            subst (λ t. Did (read_chart_file name) t w1.log) (eq_of_guard kept content same) d,
          ),
        )

  pub check_archive-Post :
      (m : Completion) (w : State)
      → Obeys (Allowed settings now) w.log
      → Post
          (Adds env (Allowed settings now) (λ _. IsOwn e key archive m) w)
          (Kept env (Allowed settings now))
          (check_archive env e archive m w)
  unfolding check_archive
  check_archive-Post m w o =
      after-call env (Allowed settings now) (member_manifest archive) w tt o
        λ inner w1 (d1, k1, o1, _).
          after-throw_if env (Allowed settings now) (differs e m inner) _ w1 _ o1 λ alike.
            let (h1, j) =
              both_of_guard _ (not (text_eq inner.janusgraph_image m.janusgraph_image)) alike in
            let (h2, c) =
              both_of_guard _ (not (text_eq inner.cassandra_image m.cassandra_image)) h1 in
            let (i, n) =
              both_of_guard (not (text_eq inner.id m.id)) (not (text_eq inner.environment e)) h2 in
            after-call env (Allowed settings now) (member_config archive) w1 tt o1
              λ config w2 (d2, k2, o2, _).
                weaken-Post
                  (for_each-Post env (Allowed settings now) IsSameFile
                    (λ f log log' k (n', d'). (n', k _ _ d')) (check_file env) w2
                    (λ f w3 _ o3. check_file-Post f w3 o3) config w2 (λ _ _ known. known) o2)
                  (λ _ w4 (o4, k4, same). (
                    o4,
                    (λ q a known. k4 q a (k2 q a (k1 q a known))),
                    (
                      (
                        inner,
                        k4 _ _ (k2 _ _ d1),
                        eq_of_guard _ _ i,
                        eq_of_guard _ _ n,
                        eq_of_guard _ _ c,
                        eq_of_guard _ _ j,
                      ),
                      (config, k4 _ _ d2, same),
                    ),
                  ))
                  (λ _ _ bad. bad)
