-- ===== src/Local/Growth.antt =====
-- The parts of deploy/data/backup.mjs lose nothing of what was answered before them.
use cartyx_infrastructure.Base.{
  ℕ, Text, Bool, true, false, Option, none, some, text, ◌∷◌, ◌==◌, inl, inr, Bool-cases,
}
use cartyx_infrastructure.Script.{Env, Log, call, or_empty}
use cartyx_infrastructure.Script.Post.{returned, stopped, and_then-Post}
use cartyx_infrastructure.Script.Discipline.{Keeps}
use cartyx_infrastructure.Script.Growth.{
  Grown, call-Grown, throw_if-Grown, after-call-Grown, after-throw_if-Grown, after-settled-Grown,
  after-attempt-Grown, after-gets-Grown,
}
use cartyx_infrastructure.Local.Places.{Place, resolve, dirname, last_name, suffixed}
use cartyx_infrastructure.Local.Requests.{
  Configured, ArchiveManifest, Answer, Settings, State, find_container, inspect, stop_service,
  drain, save_volume, receive, hash_file, write_manifest, read_manifest, image_id, create_volume,
  extract, write_override, start_restored, smoke_test,
}
use cartyx_infrastructure.Local.Saving.{Source, find_source, check_tar, run_tar, save}
use cartyx_infrastructure.Local.Restoring.{
  contains, or_else, other_image, check_manifest, rehearse_in, restore_volume, restore_locally,
}

module _ (env : Env Answer) {log : Log Answer} where
  pub find_source-Grown :
      (c : Configured) (w : State) → Keeps log w.log → Grown log (find_source env c w)
  unfolding find_source
  find_source-Grown c w k =
      after-call-Grown env (find_container (text "cassandra")) w k λ container w1 k1.
        after-throw_if-Grown _ _ w1 _ k1 (
          after-call-Grown env (inspect container) w1 k1 λ details w2 k2.
            after-throw_if-Grown _ _ w2 _ k2 (
              after-throw_if-Grown _ _ w2 _ k2 (
                after-call-Grown env (find_container (text "janusgraph")) w2 k2 λ graph w3 k3.
                  after-call-Grown env (inspect graph) w3 k3
                    λ _ w4 k4. after-throw_if-Grown _ _ w4 _ k4 (returned k4))))

  check_tar-Grown : (code : Option ℕ) (w : State) → Keeps log w.log → Grown log (check_tar code w)
  unfolding check_tar
  check_tar-Grown none w k = stopped k
  check_tar-Grown (some n) w k = elim (Bool-cases (n == 0)) [
    | inl h ↦ rw h (returned k)
    | inr h ↦ rw h (stopped k)
  ]

  pub save-Grown :
      (c : Configured) (s : Source) (id : Text) (place : Place) (w : State)
      → Keeps log w.log
      → Grown log (save env c s id place w)
  unfolding save run_tar
  save-Grown c s id place w k =
      after-call-Grown env (stop_service (text "janusgraph") 60) w k λ _ w1 k1.
        after-call-Grown env drain w1 k1 λ _ w2 k2.
          after-call-Grown env (stop_service (text "cassandra") 180) w2 k2 λ _ w3 k3.
            after-attempt-Grown (run_tar env s.volume c.cassandra) w3 _
              (after-call-Grown env (save_volume s.volume c.cassandra) w3 k3 check_tar-Grown)
              λ completed w4 k4.
                after-attempt-Grown (call env (receive place)) w4 _
                  (call-Grown env (receive place) w4 k4)
                  λ received w5 k5. after-settled-Grown received w5 _ k5 λ _.
                    after-settled-Grown completed w5 _ k5 λ _.
                      after-gets-Grown (λ u. u.time) w5 _
                        (after-call-Grown env (hash_file place) w5 k5 λ _ w6 k6.
                          call-Grown env (write_manifest (suffixed place (text ".json")) _) w6 k6)

  other_image-Grown :
      (image recorded : Text) (w : State)
      → Keeps log w.log
      → Grown log (other_image env image recorded w)
  unfolding other_image
  other_image-Grown image recorded w k = elim (Bool-cases (contains image (text "@sha256:"))) [
    | inl h ↦ rw h (returned k)
    | inr h ↦ rw h (after-call-Grown env (image_id image) w k λ _ w1 k1. returned k1)
  ]

  or_else_image-Grown :
      (b : Bool) (image recorded : Text) (w : State)
      → Keeps log w.log
      → Grown log (or_else b (other_image env image recorded) w)
  unfolding or_else
  or_else_image-Grown true image recorded w k = returned k
  or_else_image-Grown false image recorded w k = other_image-Grown image recorded w k

  check_manifest-Grown :
      (c : Configured) (m : ArchiveManifest) (w : State)
      → Keeps log w.log
      → Grown log (check_manifest env c m w)
  unfolding check_manifest
  check_manifest-Grown c m w k =
      and_then-Post (or_else_image-Grown _ c.cassandra m.cassandra_image_id w k) λ b w1 k1.
        and_then-Post (or_else_image-Grown b c.janusgraph m.janusgraph_image_id w1 k1)
          λ _ w2 k2. after-throw_if-Grown _ _ w2 _ k2 (throw_if-Grown _ _ w2 k2)

  rehearse_in-Grown :
      (c : Configured) (output archive : Place) (volume : Text) (w : State)
      → Keeps log w.log
      → Grown log (rehearse_in env c output archive volume w)
  unfolding rehearse_in
  rehearse_in-Grown c output archive volume w k =
      after-call-Grown env (create_volume volume) w k λ _ w1 k1.
        after-call-Grown env (extract volume (dirname archive) c.cassandra (last_name archive)) w1
          k1
          λ _ w2 k2.
            after-call-Grown env (write_override (text "restore.compose.yaml" ∷ output) _) w2 k2
              λ _ w3 k3.
                after-call-Grown env (start_restored (text "restore.compose.yaml" ∷ output)) w3 k3
                  λ _ w4 k4.
                    call-Grown env (smoke_test (text "wss://localhost:18183/gremlin")) w4 k4

  pub restore_locally-Grown :
      (c : Configured) (output : Place) (settings : Settings) (w : State)
      → Keeps log w.log
      → Grown log (restore_locally env c output settings w)
  unfolding restore_locally
  restore_locally-Grown c output settings w k =
      let place : Place = resolve settings.directory (or_empty settings.input) in
      after-throw_if-Grown _ _ w _ k (
        after-call-Grown env (read_manifest place) w k λ m w1 k1.
          and_then-Post (check_manifest-Grown c m w1 k1) λ _ w2 k2.
            after-call-Grown env (hash_file (resolve (dirname place) m.file)) w2 k2 λ _ w3 k3.
              after-throw_if-Grown _ _ w3 _ k3 (
                after-gets-Grown (λ u. u.time) w3 _
                  (rehearse_in-Grown c output (resolve (dirname place) m.file)
                    (restore_volume w3.time) w3 k3)))
