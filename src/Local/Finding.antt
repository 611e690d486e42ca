-- ===== src/Local/Finding.antt =====
-- The checks of `local-backup` of deploy/data/backup.mjs, before it stops anything.
use cartyx_infrastructure.Base.{
  Text, text, true, Option, none, some, ◌≡◌, refl, eq_of_guard, true_of_guard,
}
use cartyx_infrastructure.Script.{Env, Log, given, or_empty}
use cartyx_infrastructure.Script.Post.{Post, returned}
use cartyx_infrastructure.Script.Discipline.{
  Did, Obeys, Keeps, Kept, Adds, after-call, after-throw_if,
}
use cartyx_infrastructure.Local.Requests.{
  Configured, Answer, Settings, State, read_config, create_lock, find_container, inspect,
}
use cartyx_infrastructure.Local.Saving.{find_source}
use cartyx_infrastructure.Local.Main.{lock_of}
use cartyx_infrastructure.Local.Trust.{IsSource, Calm, output}

some_of_given : (v : Option Text) → given v ≡ true → v ≡ some (or_empty v)
some_of_given none h = cc h
some_of_given (some s) h = refl

module _ (env : Env Answer) (settings : Settings) (c : Configured) where
  abbrev pub IsLocked : Log Answer → Type 0
  IsLocked log = Did (create_lock (lock_of (output settings))) tt log

  -- Under the lock, with the images known.
  abbrev pub IsReady : Log Answer → Type 0
  IsReady log = IsLocked log × Did read_config c log

  pub find_source-Post :
      (w : State)
      → IsReady w.log
      → Obeys (Calm settings) w.log
      → Post
          (Adds env (Calm settings) (λ s log. IsLocked log × IsSource c s log) w)
          (Kept env (Calm settings))
          (find_source env c w)
  unfolding find_source
  find_source-Post w (l, config) o =
      after-call env (Calm settings) (find_container (text "cassandra")) w ((l, tt), tt) o
        λ container w1 (found, k1, o1, _). after-throw_if env (Calm settings) _ _ w1 _ o1 λ running.
          after-call env (Calm settings) (inspect container) w1 ((k1 _ _ l, tt), tt) o1
            λ details w2 (inspected, k2, o2, _).
              after-throw_if env (Calm settings) _ _ w2 _ o2 λ named.
                after-throw_if env (Calm settings) _ _ w2 _ o2 λ same.
                  after-call env (Calm settings) (find_container (text "janusgraph")) w2
                    ((k2 _ _ (k1 _ _ l), tt), tt) o2
                    λ graph_container w3 (graph_found, k3, o3, _).
                      after-call env (Calm settings) (inspect graph_container) w3
                        ((k3 _ _ (k2 _ _ (k1 _ _ l)), tt), tt) o3
                        λ graph w4 (graph_inspected, k4, o4, _).
                          after-throw_if env (Calm settings) _ _ w4 _ o4 λ same_graph.
                            let k : Keeps w.log w4.log =
                              λ q a d. k4 q a (k3 q a (k2 q a (k1 q a d))) in
                            returned (
                              o4,
                              k,
                              (
                                k _ _ l,
                                (
                                  k _ _ config,
                                  (
                                    container,
                                    k4 _ _ (k3 _ _ (k2 _ _ found)),
                                    k4 _ _ (k3 _ _ inspected),
                                  ),
                                  (graph_container, k4 _ _ graph_found, graph_inspected),
                                  some_of_given _ (true_of_guard _ named),
                                  eq_of_guard _ _ same,
                                  eq_of_guard _ _ same_graph,
                                ),
                              ),
                            )
