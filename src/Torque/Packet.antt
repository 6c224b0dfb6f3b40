-- ===== src/Torque/Packet.antt =====
-- Packets of the torque sensor: filling the buffer, accepting a packet and reading its values.
use mathlib.Core.List.{append-nil, append_assoc}
use motor_test.Base.{ℕ, zero, suc, ◌+◌, ◌-◌, ◌*◌, ◌/◌, ◌^◌, ◌<◌, ◌≡◌, refl, ◌∙◌, ap, arith}
use motor_test.Base.{List, [], ◌∷◌, ◌++◌, Bool, true, false, not, ◌==◌, if◌then◌else◌, All}
use motor_test.Base.Bits.{or_low, or_comm}
use motor_test.Torque.{Read, got, failed, full, overrun, fill, count}
use motor_test.Torque.{Sensor, measure, packet_cycle, swap_uint16}
use motor_test.Torque.Checksum.{bitwise_crc, modbus_crc16-eq-bitwise_crc}

-- The bytes of several reads, one after another, and the reads themselves.
abbrev pub joined : List (List ℕ) → List ℕ
joined [] = []
joined (c ∷ chunks) = c ++ joined chunks

abbrev pub reads_of : List (List ℕ) → List Read
reads_of [] = []
reads_of (c ∷ chunks) = got c ∷ reads_of chunks

count-append : (xs ys : List ℕ) → count (xs ++ ys) ≡ count xs + count ys
count-append [] ys = omega arith
count-append (x ∷ xs) ys = omega (arith, count-append xs ys)

-- A read that has brought something.
abbrev pub IsSome : List ℕ → Type 0
IsSome c = 0 < count c

-- However the bytes that are asked for are cut into reads, the buffer ends up with all of them in order,
-- and the reads behind them are left.
pub fill-joined :
    (buf : List ℕ) (rest : ℕ) (chunks : List (List ℕ)) (more : List Read)
    → All IsSome chunks
    → count (joined chunks) ≡ rest
    → fill buf rest (reads_of chunks ++ more) ≡ full (buf ++ joined chunks) more
unfolding fill
fill-joined buf zero [] more some h = rw (append-nil buf) refl
fill-joined buf zero (c ∷ chunks) more some h =
    let first = some.0 in absurd (omega (arith, count-append c (joined chunks)))
fill-joined buf (suc rest) [] more some h = absurd (omega arith)
fill-joined buf (suc rest) (c ∷ chunks) more some h =
    fill-joined (buf ++ c) (suc rest - count c) chunks more (some.1)
      (omega (arith, count-append c (joined chunks)))
    ∙ ap (λ xs. full xs more) (append_assoc buf c (joined chunks))

-- A failed read before the first byte makes the next byte go in front of the buffer.
pub fill-failed :
    (rest : ℕ) (b : ℕ) (bytes : List ℕ) (reads : List Read)
    → fill [] (suc rest) (failed ∷ got (b ∷ bytes) ∷ reads) ≡ overrun
unfolding fill
fill-failed rest b bytes reads = refl

-- Swapping the bytes of a word that was read least significant first.
swap-word : (lo hi : ℕ) → lo < 256 → hi < 256 → swap_uint16 (lo + hi * 2 ^ 8) ≡ lo * 256 + hi
unfolding swap_uint16
swap-word lo hi l h =
    let x : ℕ = lo + hi * 2 ^ 8 in
    ground (arith, or_comm (x / 2 ^ 8) (x * 2 ^ 8), or_low x 8 (x / 2 ^ 8))

if-not {ℓ} : {A : Type ℓ} → (b : Bool) (x y : A) → (if not b then y else x) ≡ (if b then x else y)
if-not true x y = refl
if-not false x y = refl

-- A packet is taken exactly when its last two bytes are the bitwise checksum of the first four; its
-- first two bytes are then the torque and the next two the speed, most significant first. Any other
-- packet leaves the values as they were.
pub packet_cycle_lem :
    (g : Sensor) (a b c d e f : ℕ)
    → All (λ x. x < 256) (a ∷ b ∷ c ∷ d ∷ e ∷ f ∷ [])
    → packet_cycle g (a ∷ b ∷ c ∷ d ∷ e ∷ f ∷ []) ≡ (
        if bitwise_crc 0xFFFF (a ∷ b ∷ c ∷ d ∷ []) == e + f * 256
        then (measure (a * 256 + b) (c * 256 + d), true)
        else (g, false))
unfolding packet_cycle
packet_cycle_lem g a b c d e f h =
    let bytes : List ℕ = a ∷ b ∷ c ∷ d ∷ [] in
    let same = modbus_crc16-eq-bitwise_crc bytes (h.0, (h.1.0, (h.1.1.0, (h.1.1.1.0, tt)))) in
    rw (same, swap-word a b h.0 h.1.0, swap-word c d h.1.1.0 h.1.1.1.0)
      (if-not (bitwise_crc 0xFFFF bytes == e + f * 256) (measure (a * 256 + b) (c * 256 + d), true)
        (g, false))
