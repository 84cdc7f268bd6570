-- ===== src/Wire/Whole.antt =====
-- A chat request from its reservation to its last byte, over the wire.
use omny.Base.{◌⊎◌, ◌≤◌, bytes, none, [], ℕ, ◌≡◌, Option, some, Bytes}
use omny.Pool.Traffic.Ledger.{Ledger}
use omny.Admission.{Admission}
use omny.Body.{slice, last_solid, text, Decoder, Want, Plan}
use omny.Proxy.{Waits}
use omny.Chat.{Reader}
use omny.Wire.{Codec}

-- What encoding/json says of a body that it reads as an object: it is not empty, and the value after a
-- text `model` that its decoder gives ends no later than the last byte that is no white space.
pub record IsJson {D : Type 0} (dec : Bytes → Decoder D) (peek : Bytes → Option Want) : Type 0 where
  pub not_empty : peek [] ≡ none
  pub inside :
      (b : Bytes) (w : Want) (d₀ d d' : D) (raw : Bytes) (last : ℕ)
      → peek b ≡ some w
      → (dec b).token d₀ ≡ some (text (bytes "model"), d)
      → (dec b).decode d ≡ some (raw, d')
      → last_solid b ≡ some last
      → (dec b).offset d' ≤ last

module _ (fp : Bytes → Bytes) {U D : Type 0} (reader : Reader U) (dec : Bytes → Decoder D)
    (peek : Bytes → Option Want) (waits : Waits) (pause : ℕ) (codec : Codec) where
  -- The plan has no place of a value, or the place of the one that the decoder gave after `model`.
  abbrev pub IsLocated : Plan → Type 0
  IsLocated p =
      (p.hi ≡ 0)
      ⊎ ((d₀ : D) × (d : D) × (d' : D) × (raw : Bytes) × ((dec p.body).token d₀
            ≡ some (text (bytes "model"), d))
          × ((dec p.body).decode d ≡ some (raw, d'))
          × (p.hi ≡ (dec p.body).offset d')
          × (slice p.body p.lo p.hi ≡ raw))
