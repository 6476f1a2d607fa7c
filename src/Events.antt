-- ===== src/Events.antt =====
-- services/signalmesh-node/internal/events/events.go: the bus between the nodes, and its identifiers.
-- The NATS client is a parameter, and so is the JSON of an event.
pub mod Identity
use Prim.Native.Char.{Char, nul}
use Prim.Native.String.{◌++◌ as ◌<>◌}
use signalmesh.Base.{
  ℕ, ◌/◌, ◌%◌, ◌⊎◌, inl, inr, Option, none, some, List, [], ◌∷◌, String, get_elem?, if◌then◌else◌,
}
use signalmesh.Base.Clock.{Time}

-- `Publish` and `Subscribe` of a connection; a handler acts on a state, and `some` is an error.
pub record Client (C D S E : Type 0) : Type 0 where
  pub send : C → String → D → C × Option E
  pub attach : C → String → (S → D → S) → C × Option E

module _ {C D S E : Type 0} (client : Client C D S E) where
  abbrev pub send_data : C → String → D ⊎ E → Option C × Option E
  send_data conn subject (inl bytes) = let (c, e) = client.send conn subject bytes in (some c, e)
  send_data conn subject (inr e) = (some conn, some e)

  -- `Publish`, on a bus that may be nil, with what `json.Marshal` makes of the event.
  unfoldable pub publish : Option C → String → D ⊎ E → Option C × Option E
  publish none subject marshalled = (none, none)
  publish (some conn) subject marshalled = send_data conn subject marshalled

  unfoldable pub subscribe : Option C → String → (S → D → S) → Option C × Option E
  subscribe none subject handler = (none, none)
  subscribe (some conn) subject handler =
      let (c, e) = client.attach conn subject handler in (some c, e)

abbrev pub digits : List Char
digits =
    "0" ∷ "1" ∷ "2" ∷ "3" ∷ "4" ∷ "5" ∷ "6" ∷ "7" ∷ "8" ∷ "9" ∷ "a" ∷ "b" ∷ "c" ∷ "d" ∷ "e" ∷ "f"
    ∷ []

abbrev pub or_nul : Option Char → Char
or_nul none = nul
or_nul (some c) = c

-- A digit of `hex.EncodeToString`.
abbrev pub digit : ℕ → Char
digit n = or_nul (get_elem? digits n)

-- `hex.EncodeToString` of bytes.
abbrev pub hex : List ℕ → String
hex [] = ""
hex (b ∷ bs) = String.◌∷◌ (digit (b / 16)) (String.◌∷◌ (digit (b % 16)) (hex bs))

-- `NewID`, with the random bytes if there are some, and the text of the clock.
unfoldable pub new_id : String → Option (List ℕ) → String → String
new_id prefix none nanos = prefix <> "-" <> nanos
new_id prefix (some buf) nanos = prefix <> "-" <> hex buf
