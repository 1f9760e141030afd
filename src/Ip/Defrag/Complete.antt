-- ===== src/Ip/Defrag/Complete.antt =====
-- When the fragments of a context make up a packet, and how long it is.
use mu_quinet.Prelude.{
  ℕ, ◌+◌, ◌-◌, ◌*◌, ◌≤◌, ◌≡◌, refl, ◌↔◌, List, [], ◌∷◌, true, false, arith, All, pos, u16,
}
use mu_quinet.Net.Buffer.{SocketBuffer, ip_hdr}
use mu_quinet.Ip.Header.{more_frag}
use mu_quinet.Ip.Defrag.{contiguous, last_frag, ready, payload_len, offset, tot_len, hdr_len}

-- A fragment whose total length covers its header.
abbrev pub HasLength : SocketBuffer → Type 0
HasLength b = hdr_len b ≤ tot_len b

abbrev pub total_payload : List SocketBuffer → ℕ
total_payload [] = 0
total_payload (b ∷ bs) = (tot_len b - hdr_len b) + total_payload bs

-- The fragments stand one after another from byte `n`: each starts where the one before ends.
abbrev pub Tiles : ℕ → List SocketBuffer → Type 0
Tiles n [] = Unit
Tiles n (b ∷ bs) = (offset b * 8 ≡ n) × Tiles (n + (tot_len b - hdr_len b)) bs

contiguous-Tiles :
    (n : ℕ) (l : List SocketBuffer) → All HasLength l → contiguous (pos n) l ≡ true → Tiles n l
unfolding contiguous
contiguous-Tiles n [] h e = tt
contiguous-Tiles n (b ∷ bs) (h, hs) e =
    (ground arith, contiguous-Tiles (n + (tot_len b - hdr_len b)) bs hs (ground arith))

Tiles-contiguous :
    (n : ℕ) (l : List SocketBuffer) → All HasLength l → Tiles n l → contiguous (pos n) l ≡ true
unfolding contiguous
Tiles-contiguous n [] h t = refl
Tiles-contiguous n (b ∷ bs) (h, hs) (e, t) =
    ground (arith, Tiles-contiguous (n + (tot_len b - hdr_len b)) bs hs t)

-- Fragments whose lengths cover their headers are taken for a whole packet exactly when they start
-- at byte 0, each starts where the one before ends, and the last has no more-fragments flag.
pub ready_iff :
    (f : SocketBuffer) (rest : List SocketBuffer)
    → All HasLength (f ∷ rest)
    → (ready (f ∷ rest) ≡ true)
      ↔ (Tiles 0 (f ∷ rest) × (more_frag (ip_hdr (last_frag f rest)) ≡ false))
unfolding ready
ready_iff f rest h =
    ground (arith, contiguous-Tiles 0 (f ∷ rest) h, Tiles-contiguous 0 (f ∷ rest) h)

last_frag_end :
    (n : ℕ) (f : SocketBuffer) (rest : List SocketBuffer)
    → All HasLength (f ∷ rest)
    → Tiles n (f ∷ rest)
    → (offset (last_frag f rest) * 8 + tot_len (last_frag f rest)
        ≡ n + total_payload (f ∷ rest) + hdr_len (last_frag f rest))
unfolding last_frag
last_frag_end n f [] (h, _) (e, _) = omega arith
last_frag_end n f (c ∷ cs) (h, hs) (e, t) =
    omega (arith, last_frag_end (n + (tot_len f - hdr_len f)) c cs hs t, e)

-- The payload length that the last fragment gives is the sum of all the fragments' payloads, modulo
-- 2 ^ 16.
pub payload_len-ready :
    (f : SocketBuffer) (rest : List SocketBuffer)
    → All HasLength (f ∷ rest)
    → ready (f ∷ rest) ≡ true
    → payload_len (last_frag f rest) ≡ u16 (total_payload (f ∷ rest))
unfolding payload_len
payload_len-ready f rest h e =
    let (t, _) = (ready_iff f rest h).0 e in omega (arith, last_frag_end 0 f rest h t)
