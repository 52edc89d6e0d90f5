-- ===== src/Packets/Handlers/Items/Bounds.antt =====
-- internal/packets/receive/vender_items_lists.go: the loop stays in the payload, and how many items it
-- finds.
use ro_proxy.Prelude.{
  ℕ, zero, suc, ◌+◌, ◌-◌, ◌*◌, ◌/◌, ◌≤◌, ◌<◌, ◌≡◌, refl, List, [], ◌∷◌, ok, true, inl, inr,
}
use ro_proxy.Prelude.{length, does_return, does_return_ok, does_return-bind, leb, Bool-cases, arith}
use ro_proxy.Common.Base.{Bytes}
use ro_proxy.Packets.Handlers.Reports.{VenderItem, byte_at}
use ro_proxy.Packets.Handlers.Items.{uint24_at, item_at, items_from}

-- An index in range is read.
pub byte_at-in : (bytes : Bytes) (i : ℕ) → i < length bytes → does_return (byte_at bytes i) ≡ true
byte_at-in [] i h = absurd (omega arith)
byte_at-in (b ∷ bs) zero h = refl
byte_at-in (b ∷ bs) (suc i) h = byte_at-in bs i (omega arith)

uint24_at-in :
    (bytes : Bytes) (i : ℕ) → i + 2 < length bytes → does_return (uint24_at bytes i) ≡ true
uint24_at-in bytes i h = does_return-bind _ _ (byte_at-in bytes i (omega arith)) λ a.
    does_return-bind _ _ (byte_at-in bytes (i + 1) (omega arith))
      λ b. does_return-bind _ _ (byte_at-in bytes (i + 2) h) λ c. refl

item_at-in :
    (payload : Bytes) (i : ℕ) → i + 63 ≤ length payload → does_return (item_at payload i) ≡ true
unfolding item_at
item_at-in payload i h = does_return-bind _ _ (byte_at-in payload (i + 8) (omega arith)) λ type.
    does_return-bind _ _ (uint24_at-in payload (i + 33) (omega arith)) λ v1.
      does_return-bind _ _ (uint24_at-in payload (i + 38) (omega arith)) λ v2.
        does_return-bind _ _ (uint24_at-in payload (i + 43) (omega arith))
          λ v3. does_return-bind _ _ (uint24_at-in payload (i + 48) (omega arith)) λ v4. refl

-- With fuel for the rest of the payload, the loop returns from every offset, and finds one item for
-- each 64 bytes, of which the last may lack one.
pub items_from-length :
    (fuel : ℕ) (payload : Bytes) (i : ℕ)
    → length payload < i + 64 * fuel
    → (list : List VenderItem) × (items_from fuel payload i ≡ ok list)
      × (length list ≡ (length payload + 1 - i) / 64)
unfolding items_from
items_from-length zero payload i h = ([], refl, omega arith)
items_from-length (suc fuel) payload i h =
    let (rest, e, size) = items_from-length fuel payload (i + 64) (omega arith) in
    elim (Bool-cases (leb (i + 63) (length payload))) [
      | inl more ↦
          let (item, found) = does_return_ok _ (item_at-in payload i (ground arith)) in
          (item ∷ rest, rw (more, found, e) refl, ground (arith, size))
      | inr less ↦ ([], rw less refl, ground arith)
    ]
