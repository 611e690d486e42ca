-- ===== src/Script/Values.antt =====
-- Values of `process.env` and `process.argv`.
use cartyx_infrastructure.Base.{Text, [], ◌∷◌, Bool, true, false, Option, none, some}

-- A value that is set and is not empty.
abbrev pub given : Option Text → Bool
given value = elim value [ none ↦ false | some [] ↦ false | some (c ∷ s) ↦ true ]

abbrev pub or_empty : Option Text → Text
or_empty value = elim value [ none ↦ [] | some s ↦ s ]
