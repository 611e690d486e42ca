-- ===== src/Local/Accepted.antt =====
-- `local-restore` accepts what `local-backup` wrote, and looks for it beside its manifest.
use cartyx_infrastructure.Base.{
  ◌∙◌, ℕ, ◌%◌, ◌/◌, Text, text, List, [], ◌∷◌, ◌++◌, false, not, ◌||◌, ◌≡◌, refl, ap, arith, map,
  some_of, text_eq, text_eq_refl, both_of_guard, inl, inr, Bool-cases, starts_with,
}
use cartyx_infrastructure.Script.{Env, Log, resolved, ok, call, after_call, and_then}
use cartyx_infrastructure.Cluster.Clock.{
  to_iso_string, file_stamp, date_of_day, day_ms, Date, dashed, digit, two_digits, three_digits,
}
use cartyx_infrastructure.Upload.{is_slash, trimmed, last_segment, basename}
use cartyx_infrastructure.Upload.Checked.{IsPlain, basename-IsPlain}
use cartyx_infrastructure.Local.Places.{Place, dirname, last_name, split, enter, walk, resolve}
use cartyx_infrastructure.Local.Requests.{Configured, Container, Answer, State, image_id}
use cartyx_infrastructure.Local.Saving.{archive_id, destination_of, manifest_of}
use cartyx_infrastructure.Local.Restoring.{
  contains, or_else, mismatched, other_image, check_manifest,
}

tail-IsPlain : (c : ℕ) (s : Text) → IsPlain (c ∷ s) → IsPlain s
tail-IsPlain c s plain = (both_of_guard (is_slash c) (some_of is_slash s) plain).1

cons-IsPlain : (c : ℕ) (s : Text) → is_slash c ≡ false → IsPlain s → IsPlain (c ∷ s)
cons-IsPlain c s h plain = rw (h, plain) refl

trimmed-IsPlain : (s : Text) → IsPlain s → trimmed s ≡ s
unfolding trimmed
trimmed-IsPlain [] plain = refl
trimmed-IsPlain (c ∷ []) plain = rw ((both_of_guard (is_slash c) false plain).0) refl
trimmed-IsPlain (c ∷ d ∷ s) plain = rw (trimmed-IsPlain (d ∷ s) (tail-IsPlain c (d ∷ s) plain)) refl

last_segment-IsPlain : (s : Text) → IsPlain s → last_segment s ≡ s
unfolding last_segment
last_segment-IsPlain [] plain = refl
last_segment-IsPlain (c ∷ s) plain = rw plain refl

-- A name without a slash is its own `basename`.
basename-of_plain : (s : Text) → IsPlain s → basename s ≡ s
unfolding basename
basename-of_plain s plain = rw (trimmed-IsPlain s plain) (last_segment-IsPlain s plain)

split-of_plain : (s : Text) → IsPlain s → split s ≡ s ∷ []
unfolding split
split-of_plain [] plain = refl
split-of_plain (c ∷ s) plain =
    rw
      (
        split-of_plain s (tail-IsPlain c s plain),
        (both_of_guard (is_slash c) (some_of is_slash s) plain).0,
      )
      refl

digit_is_no_slash : (n : ℕ) → is_slash (dashed (digit n)) ≡ false
digit_is_no_slash n = ground arith

-- A text of digits and of marks that are no slashes.
data IsMarked : Text → Type 0 where
  nothing : IsMarked []
  digit_then : (n : ℕ) {s : Text} → IsMarked s → IsMarked (digit n ∷ s)
  mark_then : (c : ℕ) {s : Text} → is_slash (dashed c) ≡ false → IsMarked s → IsMarked (c ∷ s)

marked-IsPlain :
    {s : Text} (rest : Text) → IsMarked s → IsPlain rest → IsPlain (map dashed s ++ rest)
marked-IsPlain rest nothing plain = plain
marked-IsPlain rest (digit_then n {s} m) plain =
    cons-IsPlain (dashed (digit n)) (map dashed s ++ rest) (digit_is_no_slash n)
      (marked-IsPlain rest m plain)
marked-IsPlain rest (mark_then c {s} h m) plain =
    cons-IsPlain (dashed c) (map dashed s ++ rest) h (marked-IsPlain rest m plain)

two : (n : ℕ) {s : Text} → IsMarked s → IsMarked (two_digits n s)
two n m = digit_then (n / 10) (digit_then n m)

three : (n : ℕ) {s : Text} → IsMarked s → IsMarked (three_digits n s)
three n m = digit_then (n / 100) (two n m)

date-IsMarked : (ms : ℕ) → IsMarked (to_iso_string ms)
unfolding to_iso_string
date-IsMarked ms =
    let d : Date = date_of_day (ms / day_ms) in
    digit_then (d.year / 1000) (
      three d.year (
        mark_then b'-' refl (
          two d.month (
            mark_then b'-' refl (
              two d.day (
                mark_then b'T' refl (
                  two (ms % day_ms / 3600000) (
                    mark_then b':' refl (
                      two (ms % 3600000 / 60000) (
                        mark_then b':' refl (
                          two (ms % 60000 / 1000) (
                            mark_then b'.' refl
                              (three (ms % 1000) (mark_then b'Z' refl nothing))))))))))))))

-- The name of an archive has no slash.
archive_name-IsPlain : (ms : ℕ) → IsPlain (archive_id ms ++ text ".tar.gz")
unfolding archive_id file_stamp text
archive_name-IsPlain ms = marked-IsPlain (text ".tar.gz") (date-IsMarked ms) refl

module _ (env : Env Answer) where
  -- The identity of an image is still the one that was recorded.
  abbrev pub Remains : Text → Text → Type 0
  Remains image recorded =
      (log : Log Answer) → (env.answer (image_id image) log).result ≡ resolved recorded

  other_image-same :
      (image recorded : Text)
      → Remains image recorded
      → (w : State) → (w' : State) × (other_image env image recorded w ≡ (ok false, w'))
  unfolding other_image call after_call and_then
  other_image-same image recorded same w = elim (Bool-cases (contains image (text "@sha256:"))) [
    | inl h ↦ (w, rw h refl)
    | inr h ↦ (after_call env (image_id image) w, rw (h, same w.log, text_eq_refl recorded) refl)
  ]

  -- A manifest that `local-backup` makes at some time is accepted by `local-restore`, with the same
  -- images in the Compose file, if the identities of both images are still the recorded ones.
  pub backup-IsAccepted :
      (c : Configured) (details graph : Container) (output : Place) (ms : ℕ) (created sum : Text)
      (w : State)
      → Remains c.cassandra details.image
      → Remains c.janusgraph graph.image
      → (check_manifest env c
          (manifest_of c details graph
            (archive_id ms)
            (destination_of output (archive_id ms))
            created
            sum)
          w).0
        ≡ ok tt
  unfolding check_manifest manifest_of destination_of mismatched or_else and_then
  backup-IsAccepted c details graph output ms created sum w same same_graph =
      let (w1, e1) = other_image-same c.cassandra details.image same w in
      let (w2, e2) = other_image-same c.janusgraph graph.image same_graph w1 in
      rw
        (
          text_eq_refl c.cassandra,
          text_eq_refl c.janusgraph,
          e1,
          e2,
          text_eq_refl (text "local"),
          basename-of_plain (archive_id ms ++ text ".tar.gz") (archive_name-IsPlain ms),
          text_eq_refl (archive_id ms ++ text ".tar.gz"),
        )
        refl

-- The names that `resolve` does not take for the name of a file.
abbrev pub special_names : List Text
special_names = [] ∷ text "." ∷ text ".." ∷ []

relative-IsPlain : (s : Text) → IsPlain s → starts_with s (text "/") ≡ false
unfolding starts_with text
relative-IsPlain [] plain = refl
relative-IsPlain (c ∷ s) plain = rw ((both_of_guard (is_slash c) (some_of is_slash s) plain).0) refl

enter-of_name :
    (place : Place) (name : Text)
    → some_of (text_eq name) special_names ≡ false
    → enter place name ≡ name ∷ place
unfolding enter
enter-of_name place name proper =
    let (empty, dots) =
      both_of_guard (text_eq name [])
        (text_eq name (text ".") || (text_eq name (text "..") || false)) proper in
    let (dot, up) =
      both_of_guard (text_eq name (text ".")) (text_eq name (text "..") || false) dots in
    rw (empty, dot, (both_of_guard (text_eq name (text "..")) false up).0) refl

resolve-of_plain :
    (place : Place) (name : Text) → IsPlain name → resolve place name ≡ enter place name
unfolding resolve walk
resolve-of_plain place name plain = rw (relative-IsPlain name plain, split-of_plain name plain) refl

-- A file name that passes the guard of `local-restore` is looked for in the manifest's own
-- directory under this name, unless it is empty or one of the two names of a directory.
pub archive-IsBeside :
    (place : Place) (name : Text)
    → not (text_eq (basename name) name) ≡ false
    → some_of (text_eq name) special_names ≡ false
    → (resolve place name ≡ name ∷ place)
      × (dirname (resolve place name) ≡ place)
      × (last_name (resolve place name) ≡ name)
archive-IsBeside place name guard proper =
    let e : resolve place name ≡ name ∷ place =
      resolve-of_plain place name (basename-IsPlain name guard) ∙ enter-of_name place name proper in
    (e, ap dirname e, ap last_name e)
