-- ===== src/Local/Ends.antt =====
-- How a run of deploy/data/backup.mjs can end.
use cartyx_infrastructure.Base.{Text, text, [], ◌∷◌, ◌≡◌, ◌⊎◌, inl, inr}
use cartyx_infrastructure.Script.{Log, Settled, called, or_empty}
use cartyx_infrastructure.Script.Discipline.{Did, earlier, Keeps, Obeys}
use cartyx_infrastructure.Local.Places.{Place}
use cartyx_infrastructure.Local.Requests.{
  Configured, ArchiveManifest, Request, Answer, Settings, read_config, ensure_directory,
  create_lock, remove_lock, write_manifest, start_services, smoke_test,
}
use cartyx_infrastructure.Local.Main.{lock_of}
use cartyx_infrastructure.Local.Trust.{Held, Ruled, Calm, IsOpening, SparesServices, output}

-- The action of the command line.
abbrev pub Chose : Settings → Text → Type 0
Chose settings action = or_empty settings.action ≡ action

-- The latest call was to start the services, in a run that was asked for a backup.
abbrev pub Restarted : Settings → Log Answer → Type 0
Restarted settings log =
    Chose settings (text "local-backup")
    × ((r : Settled (Unit {0})) × (rest : Log Answer) × (log ≡ called start_services r ∷ rest))

-- The log under the lock, when the lock is to be removed.
abbrev pub IsKept : Settings → Log Answer → Type 0
IsKept settings log =
    Obeys (Held settings) log
    × Did (create_lock (lock_of (output settings))) tt log
    × (Obeys (Calm settings) log ⊎ Restarted settings log)

-- A call before there is a lock.
abbrev pub IsBegun : Settings → Request → Log Answer → Type 0
IsBegun settings q log = IsOpening q × SparesServices q × Ruled settings q log

-- The log of a whole run: the lock was not had, or its removal is the latest call.
abbrev pub IsEnded : Settings → Log Answer → Type 0
IsEnded settings log =
    ((Did (create_lock (lock_of (output settings))) tt log → ⊥) × Obeys (IsBegun settings) log)
    ⊎ ((r : Settled (Unit {0})) × (rest : Log Answer) × (log
          ≡ called (remove_lock (lock_of (output settings))) r ∷ rest)
        × IsKept settings rest)

-- What a run has done that does not fail.
abbrev pub HasDone : Settings → Log Answer → Type 0
HasDone settings log =
    (Chose settings (text "local-backup")
      × ((place : Place) × (m : ArchiveManifest) × Did (write_manifest place m) tt log)
      × Did start_services tt log)
    ⊎ (Chose settings (text "local-restore") × ((url : Text) × Did (smoke_test url) tt log))

pub nothing-Did : {q : Request} {a : Answer q} → Did {A = Answer} q a [] → ⊥
nothing-Did d = elim d [ ]

-- Neither the configuration nor the directory is a lock.
pub config-Did :
    (place : Place) {r : Settled Configured} (log : Log Answer)
    → Did (create_lock place) tt (called read_config r ∷ log)
    → Did (create_lock place) tt log
config-Did place log (earlier d) = d

pub directory-Did :
    (place other : Place) {r : Settled (Unit {0})} (log : Log Answer)
    → Did (create_lock place) tt (called (ensure_directory other) r ∷ log)
    → Did (create_lock place) tt log
directory-Did place other log (earlier d) = d

pub HasDone-kept :
    (settings : Settings) {log log' : Log Answer}
    → Keeps log log'
    → HasDone settings log
    → HasDone settings log'
HasDone-kept settings k (inl (chose, (place, m, written), up)) =
    inl (chose, (place, m, k _ _ written), k _ _ up)
HasDone-kept settings k (inr (chose, (url, tested))) = inr (chose, (url, k _ _ tested))
