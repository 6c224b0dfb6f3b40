-- ===== src/Torque/Thread.antt =====
-- The thread of the torque sensor over whole packets.
use mathlib.Core.List.{append_assoc}
use motor_test.Base.{ℕ, suc, ◌+◌, ◌*◌, ◌<◌, ◌≡◌, refl, ap, ◌∙◌, arith}
use motor_test.Base.{List, [], ◌∷◌, ◌++◌, All, length, map, Bool, true, false, ◌==◌, if◌then◌else◌}
use motor_test.Torque.{Sensor, Read, heard, full, fill, count, measure, packet_cycle, dy200_thread}
use motor_test.Torque.Checksum.{bitwise_crc, bitwise_crc-bound}
use motor_test.Base.{sym, eq→==, ◌/◌, ◌%◌, ◌^◌}
use mathlib.Core.Path.{subst}
use motor_test.Torque.Packet.{joined, reads_of, IsSome, fill-joined, packet_cycle_lem}

-- Six bytes, in reads that each bring some of them.
abbrev pub IsPacket : List (List ℕ) → Type 0
IsPacket chunks =
    All IsSome chunks × (count (joined chunks) ≡ 6) × All (λ b. b < 256) (joined chunks)

abbrev pub all_reads : List (List (List ℕ)) → List Read
all_reads [] = []
all_reads (chunks ∷ packets) = reads_of chunks ++ all_reads packets

-- The values after a packet: its own, where its checksum is right, and else those before.
abbrev pub taken : Sensor → List ℕ → Sensor
taken g (a ∷ b ∷ c ∷ d ∷ e ∷ f ∷ []) =
    if bitwise_crc 0xFFFF (a ∷ b ∷ c ∷ d ∷ []) == e + f * 256
    then measure (a * 256 + b) (c * 256 + d)
    else g
taken g other = g

abbrev pub last_taken : Sensor → List (List ℕ) → Sensor
last_taken g [] = g
last_taken g (packet ∷ packets) = last_taken (taken g packet) packets

if-first :
    (b : Bool) (x g : Sensor)
    → (if◌then◌else◌ {A = Sensor × Bool} b (x, true) (g, false)).0 ≡ (if b then x else g)
if-first true x g = refl
if-first false x g = refl

packet_cycle-taken :
    (g : Sensor) (p : List ℕ)
    → count p ≡ 6
    → All (λ b. b < 256) p
    → (packet_cycle g p).0 ≡ taken g p
packet_cycle-taken g [] n h = absurd (omega arith)
packet_cycle-taken g (a ∷ []) n h = absurd (omega arith)
packet_cycle-taken g (a ∷ b ∷ []) n h = absurd (omega arith)
packet_cycle-taken g (a ∷ b ∷ c ∷ []) n h = absurd (omega arith)
packet_cycle-taken g (a ∷ b ∷ c ∷ d ∷ []) n h = absurd (omega arith)
packet_cycle-taken g (a ∷ b ∷ c ∷ d ∷ e ∷ []) n h = absurd (omega arith)
packet_cycle-taken g (a ∷ b ∷ c ∷ d ∷ e ∷ f ∷ []) n h =
    ap (λ (r : Sensor × Bool). r.0) (packet_cycle_lem g a b c d e f h)
    ∙ if-first (bitwise_crc 0xFFFF (a ∷ b ∷ c ∷ d ∷ []) == e + f * 256)
        (measure (a * 256 + b) (c * 256 + d)) g
packet_cycle-taken g (a ∷ b ∷ c ∷ d ∷ e ∷ f ∷ x ∷ xs) n h = absurd (omega arith)

thread_turn :
    (turns : ℕ) (g : Sensor) (reads : List Read) (buf : List ℕ) (rest : List Read)
    → fill [] 6 reads ≡ full buf rest
    → dy200_thread (suc turns) g reads ≡ dy200_thread turns (packet_cycle g buf).0 rest
unfolding dy200_thread
thread_turn turns g reads buf rest e = rw (dy200_thread, e) refl

-- However the bytes of some packets are cut into reads of at least a byte, none of which goes beyond a
-- packet, the thread takes one turn for each, ends with the values of the last packet whose checksum is
-- right, and has come to the reads behind them. Bytes that a
-- flush throws away are in none of the reads.
pub dy200_thread-packets :
    (packets : List (List (List ℕ))) (g : Sensor) (more : List Read)
    → All IsPacket packets
    → dy200_thread (length packets) g (all_reads packets ++ more)
      ≡ heard (last_taken g (map joined packets)) more
dy200_thread-packets [] g more h = unfold dy200_thread in refl
dy200_thread-packets (chunks ∷ packets) g more h =
    let reads = all_reads packets ++ more in
    let filled : fill [] 6 (reads_of chunks ++ all_reads packets ++ more)
        ≡ full (joined chunks) reads =
      ap (fill [] 6) (append_assoc (reads_of chunks) (all_reads packets) more)
      ∙ fill-joined [] 6 chunks reads (h.0.0) (h.0.1) in
    thread_turn (length packets) g _ (joined chunks) reads filled
    ∙ ap (λ s. dy200_thread (length packets) s reads)
        (packet_cycle-taken g (joined chunks) (h.0.1) (h.0.2))
    ∙ dy200_thread-packets packets (taken g (joined chunks)) more (h.1)

-- What a sensor sends for a torque and a speed.
abbrev pub body_of : ℕ → ℕ → List ℕ
body_of torque speed = torque / 256 ∷ torque % 256 ∷ speed / 256 ∷ speed % 256 ∷ []

abbrev pub packet_of : ℕ → ℕ → List ℕ
packet_of torque speed =
    let crc = bitwise_crc 0xFFFF (body_of torque speed) in
    body_of torque speed ++ crc % 256 ∷ crc / 256 ∷ []

-- Reads that bring the packets of some values of 16 bits.
abbrev pub Carries : List (List (List ℕ)) → List (ℕ × ℕ) → Type 0
Carries [] [] = Unit
Carries (chunks ∷ packets) (v ∷ values) =
    All IsSome chunks
    × (joined chunks ≡ packet_of v.0 v.1)
    × (v.0 < 2 ^ 16)
    × (v.1 < 2 ^ 16)
    × Carries packets values
Carries packets values = ⊥

abbrev pub last_measured : Sensor → List (ℕ × ℕ) → Sensor
last_measured g [] = g
last_measured g (v ∷ values) = last_measured (measure (v.0) (v.1)) values

body-bytes : (t s : ℕ) → t < 2 ^ 16 → s < 2 ^ 16 → All (λ b. b < 256) (body_of t s)
body-bytes t s h k = (omega arith, (omega arith, (omega arith, (omega arith, tt))))

packet-bytes : (t s : ℕ) → t < 2 ^ 16 → s < 2 ^ 16 → All (λ b. b < 256) (packet_of t s)
packet-bytes t s h k =
    let body = body-bytes t s h k in
    let crc = bitwise_crc-bound 0xFFFF (body_of t s) (omega arith) body in
    (body.0, (body.1.0, (body.1.1.0, (body.1.1.1.0, (omega arith, (omega arith, tt))))))

taken-packet_of : (g : Sensor) (t s : ℕ) → taken g (packet_of t s) ≡ measure t s
taken-packet_of g t s =
    let crc = bitwise_crc 0xFFFF (body_of t s) in
    let right : (crc == crc % 256 + crc / 256 * 256) ≡ true = eq→== _ _ (omega arith) in
    let torque : t / 256 * 256 + t % 256 ≡ t = omega arith in
    let speed : s / 256 * 256 + s % 256 ≡ s = omega arith in rw (right, torque, speed) refl

Carries-IsPacket :
    (packets : List (List (List ℕ))) (values : List (ℕ × ℕ))
    → Carries packets values
    → All IsPacket packets
Carries-IsPacket [] [] h = tt
Carries-IsPacket [] (v ∷ values) h = absurd h
Carries-IsPacket (chunks ∷ packets) [] h = absurd h
Carries-IsPacket (chunks ∷ packets) (v ∷ values) h = (
  (
    h.0,
    ap count (h.1),
    subst (All (λ b. b < 256)) (sym (h.1)) (packet-bytes (v.0) (v.1) (h.2) (h.3)),
  ),
  Carries-IsPacket packets values (h.4),
)

last_taken-measured :
    (packets : List (List (List ℕ))) (values : List (ℕ × ℕ)) (g : Sensor)
    → Carries packets values
    → last_taken g (map joined packets) ≡ last_measured g values
last_taken-measured [] [] g h = refl
last_taken-measured [] (v ∷ values) g h = absurd h
last_taken-measured (chunks ∷ packets) [] g h = absurd h
last_taken-measured (chunks ∷ packets) (v ∷ values) g h =
    ap (λ s. last_taken s (map joined packets)) (ap (taken g) (h.1) ∙ taken-packet_of g (v.0) (v.1))
    ∙ last_taken-measured packets values (measure (v.0) (v.1)) (h.4)

-- A sensor that sends torques and speeds of 16 bits, each in a packet with its checksum, is heard:
-- however the packets are cut into reads of at least a byte, none of which goes beyond a packet, the
-- thread ends with the values of the last packet.
pub dy200_thread-packet_of :
    (packets : List (List (List ℕ))) (values : List (ℕ × ℕ)) (g : Sensor) (more : List Read)
    → Carries packets values
    → dy200_thread (length packets) g (all_reads packets ++ more)
      ≡ heard (last_measured g values) more
dy200_thread-packet_of packets values g more h =
    dy200_thread-packets packets g more (Carries-IsPacket packets values h)
    ∙ ap (λ s. heard s more) (last_taken-measured packets values g h)
