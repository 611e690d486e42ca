-- ===== src/Cluster/Http.antt =====
-- `clusterApi` of deploy/data/cluster-api.mjs: what is sent, and what becomes of what comes back.
use cartyx_infrastructure.Base.{
  ℕ, ◌+◌, Text, text, List, [], ◌∷◌, ◌++◌, Bool, true, ◌||◌, ◌&&◌, ltb, leb, Option, none, some,
  ◌≡◌, refl, ◌≤◌, ◌<◌, ◌⊎◌, decimal, if◌then◌else◌, arith,
}
use cartyx_infrastructure.Script.{Settled, rejected}

-- `Buffer.byteLength` of well-formed text: each half of a surrogate pair stands for two bytes.
unfoldable pub byte_length : Text → ℕ
byte_length [] = 0
byte_length (c ∷ s) =
    (if ltb c 0x80
      then 1
      else if ltb c 0x800
      then 2
      else if leb 0xD800 c && leb c 0xDFFF
      then 2
      else 3)
    + byte_length s

-- The headers; `body` is the text of the body, and an empty text would be false.
unfoldable pub headers : Text → Option Text → List (Text × Text)
headers token body = (text "authorization", text "Bearer " ++ token) ∷ elim body [
  | none ↦ []
  | some [] ↦ []
  | some (c ∷ s) ↦
      (text "content-type", text "application/merge-patch+json")
      ∷ (text "content-length", decimal (byte_length (c ∷ s)))
      ∷ []
]

-- How an exchange ends: with a whole response, with no response in 15 seconds, or with an error.
pub data Ending : Type 0 where
  responded : ℕ → Text → Ending
  timed_out : Ending
  broken : Text → Ending

abbrev is_failure : ℕ → Bool
is_failure status = ltb status 200 || leb 300 status

-- `JSON.parse` is a parameter.
module _ {J : Type 0} (parse : Text → Settled J) where
  unfoldable pub settle : Text → Text → Ending → Settled J
  settle method path (responded status body) =
      if is_failure status
      then rejected (
          text "Kubernetes "
          ++ (method ++ (text " " ++ (path ++ (text ": HTTP " ++ decimal status)))))
      else parse body
  settle method path timed_out = rejected (text "Kubernetes request timed out")
  settle method path (broken e) = rejected e

  -- What a response outside 200 to 299 is rejected with does not depend on its body, which could
  -- hold credentials.
  pub settle-hides_body :
      (method path : Text) (status : ℕ)
      → (status < 200) ⊎ (300 ≤ status)
      → (body body' : Text)
      → (settle method path (responded status body) ≡ settle method path (responded status body'))
        × ((e : Text) × (settle method path (responded status body) ≡ rejected e))
  unfolding settle
  settle-hides_body method path status outside body body' =
      let failure : is_failure status ≡ true = ground (arith, outside) in
      rw failure (refl, (_, refl))
