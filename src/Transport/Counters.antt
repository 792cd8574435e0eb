-- ===== src/Transport/Counters.antt =====
-- What a run of the receive loop counts and whom it remembers.
use mmperp.Prelude.{
  ℕ, suc, ◌+◌, ◌%◌, ◌^◌, ◌≡◌, inl, inr, refl, ap, ◌∙◌, false, Option, none, some, List, [], ◌∷◌,
  arith, Assoc, lookup, assign, lookup-assign, length, All, ◌==◌, if◌then◌else◌, Bool-cases,
}
use mmperp.Prelude.Int.{ℤ, -ℤ_parts}
use mmperp.Ingress.{Frame}
use mmperp.Transport.Wire.{parse_frame}
use mmperp.Transport.Udp.{UdpTransport, stale, prune, deliver, receive}

-- A datagram: the time, the sender's key and the bytes.
abbrev pub Datagram : Type 0
Datagram = ℤ × ℕ × List ℕ

-- What the callback gets, in front of what it gets later.
unfoldable pub keep : Option Frame → List Frame → List Frame
keep none frames = frames
keep (some f) frames = f ∷ frames

abbrev one_if : Option Frame → ℕ
one_if none = 0
one_if (some f) = 1

length-keep :
    (o : Option Frame) (frames : List Frame) → length (keep o frames) ≡ one_if o + length frames
unfolding keep
length-keep none frames = omega arith
length-keep (some f) frames = omega arith

-- The loop over the datagrams that arrive, with the frames for the callback.
unfoldable pub receive_all : UdpTransport → List Datagram → List Frame × UdpTransport
receive_all t [] = ([], t)
receive_all t ((now, sender, bytes) ∷ rest) =
    let (out, t') = receive t now sender bytes in
    let (frames, t'') = receive_all t' rest in (keep out frames, t'')

-- The frames that a list of datagrams carries.
unfoldable pub frames_in : List Datagram → List Frame
frames_in [] = []
frames_in ((now, sender, bytes) ∷ rest) = keep (parse_frame bytes) (frames_in rest)

abbrev pub IsFresh : ℤ → ℕ × ℤ → Type 0
IsFresh now (key, seen) = stale now seen ≡ false

pub prune-IsFresh : (now : ℤ) (peers : Assoc ℤ) → All (IsFresh now) (prune now peers)
unfolding prune
prune-IsFresh now [] = tt
prune-IsFresh now ((key, seen) ∷ peers) = elim (Bool-cases (stale now seen)) [
  | inl old ↦ rw old (prune-IsFresh now peers)
  | inr fresh ↦ rw fresh (fresh, prune-IsFresh now peers)
]

fresh_now : (now : ℤ) → stale now now ≡ false
fresh_now now = ground (arith, -ℤ_parts now now)

lookup-prune :
    (now : ℤ) (key : ℕ) (peers : Assoc ℤ) (seen : ℤ)
    → lookup key peers ≡ some seen
    → stale now seen ≡ false
    → lookup key (prune now peers) ≡ some seen
unfolding prune lookup
lookup-prune now key [] seen e h = cc
lookup-prune now key ((k, s) ∷ peers) seen e h = ground (arith, lookup-prune now key peers seen)

peers_delivered :
    (t : UdpTransport) (o : Option Frame) → (deliver t o).1.peer_last_seen ≡ t.peer_last_seen
unfolding deliver
peers_delivered t none = refl
peers_delivered t (some f) = refl

-- After a datagram that is not empty its sender was last seen now, and every peer remembered was seen
-- within the window of five seconds.
pub receive-IsFresh :
    (t : UdpTransport) (now : ℤ) (sender b : ℕ) (bytes : List ℕ)
    → let peers = (receive t now sender (b ∷ bytes)).1.peer_last_seen in
      (lookup sender peers ≡ some now) × All (IsFresh now) peers
unfolding receive
receive-IsFresh t now sender b bytes =
    let seen = assign sender now t.peer_last_seen in
    rw (peers_delivered _ (parse_frame (b ∷ bytes))) (
      lookup-prune now sender seen now
          (lookup-assign sender sender now t.peer_last_seen ∙ self sender now) (fresh_now now),
      prune-IsFresh now seen,
    )
  where
    self : (k : ℕ) (v : ℤ) → (if k == k then some v else lookup k t.peer_last_seen) ≡ some v
    self k v = ground arith

-- The datagrams that are not empty.
unfoldable pub nonempty : List Datagram → ℕ
nonempty [] = 0
nonempty ((now, sender, []) ∷ rest) = nonempty rest
nonempty ((now, sender, b ∷ bytes) ∷ rest) = suc (nonempty rest)

one_delivered :
    (o : Option Frame) (t : UdpTransport)
    → ((deliver t o).0 ≡ o)
      × ((deliver t o).1.frames_received % 2 ^ 64 ≡ (t.frames_received + one_if o) % 2 ^ 64)
      × (((deliver t o).1.frames_received + (deliver t o).1.frames_malformed) % 2 ^ 64
          ≡ (t.frames_received + t.frames_malformed + 1) % 2 ^ 64)
unfolding deliver
one_delivered none t = (refl, omega arith, omega arith)
one_delivered (some f) t = (refl, omega arith, omega arith)

one_received :
    (t : UdpTransport) (now : ℤ) (sender b : ℕ) (bytes : List ℕ)
    → let o = parse_frame (b ∷ bytes) in
      let (out, t') = receive t now sender (b ∷ bytes) in
      (out ≡ o)
      × (t'.frames_received % 2 ^ 64 ≡ (t.frames_received + one_if o) % 2 ^ 64)
      × ((t'.frames_received + t'.frames_malformed) % 2 ^ 64
          ≡ (t.frames_received + t.frames_malformed + 1) % 2 ^ 64)
unfolding receive
one_received t now sender b bytes = one_delivered (parse_frame (b ∷ bytes)) _

receive_nothing : (t : UdpTransport) (now : ℤ) (sender : ℕ) → receive t now sender [] ≡ (none, t)
unfolding receive
receive_nothing t now sender = refl

parse_nothing : parse_frame [] ≡ none
unfolding parse_frame
parse_nothing = refl

abbrev pub Counted : UdpTransport → UdpTransport → ℕ → ℕ → Type 0
Counted t t' frames datagrams =
    (t'.frames_received % 2 ^ 64 ≡ (t.frames_received + frames) % 2 ^ 64)
    × ((t'.frames_received + t'.frames_malformed) % 2 ^ 64
        ≡ (t.frames_received + t.frames_malformed + datagrams) % 2 ^ 64)

-- Over any run of the receive loop the callback gets exactly the frames that the datagrams carry, in
-- order, and modulo 2^64 the received frames are counted, and each datagram that is not empty counts
-- once, as received or as malformed.
pub receive_all-frames_in :
    (t : UdpTransport) (ds : List Datagram)
    → ((receive_all t ds).0 ≡ frames_in ds)
      × Counted t (receive_all t ds).1 (length (frames_in ds)) (nonempty ds)
unfolding receive_all frames_in nonempty keep
receive_all-frames_in t [] = (refl, (omega arith, omega arith))
receive_all-frames_in t ((now, sender, []) ∷ rest) =
    rw (receive_nothing t now sender, parse_nothing) (receive_all-frames_in t rest)
receive_all-frames_in t ((now, sender, b ∷ bytes) ∷ rest) =
    let (out, received, counted) = one_received t now sender b bytes in
    let (same, counted') = receive_all-frames_in (receive t now sender (b ∷ bytes)).1 rest in
    (
      ap (λ o. keep o (receive_all (receive t now sender (b ∷ bytes)).1 rest).0) out
          ∙ ap (keep (parse_frame (b ∷ bytes))) same,
      (
        omega (arith, received, counted'.0, length-keep (parse_frame (b ∷ bytes)) (frames_in rest)),
        omega (arith, counted, counted'.1),
      ),
    )
