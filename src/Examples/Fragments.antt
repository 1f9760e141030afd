-- ===== src/Examples/Fragments.antt =====
-- Fragments and the blocks that packets belong to, at concrete inputs.
use mu_quinet.Prelude.{
  ℕ, ◌≡◌, refl, ◌↔◌, ◌⊎◌, List, [], ◌∷◌, ◌++◌, true, false, Option, none, some, arith, swap16,
  replicate, All, if◌then◌else◌, ◌==◌,
}
use mu_quinet.Net.Headers.{ip_header}
use mu_quinet.Net.Buffer.{SocketBuffer, ip_hdr}
use mu_quinet.Ip.Header.{frag_offset, more_frag}
use mu_quinet.Ip.Defrag.{
  Defrager, DefragContext, defrag, insert_frag, ready, contiguous, last_frag, lookup, context_of,
  settle, set_first,
}
use mu_quinet.Ip.Defrag.Complete.{Tiles, ready_iff}
use mu_quinet.Ip.Defrag.Contexts.{IsValid, defrag-IsValid}
use mu_quinet.Pcb.{Pcb, Flow, find}
use mu_quinet.Pcb.Find.{TakesAt, find-IsLast}

-- A fragment whose offset field has the bytes `hi` and `lo`: 20 bytes of header and `len` in all.
abbrev frag : ℕ → ℕ → ℕ → SocketBuffer
frag hi lo len = record {
  raw = 0x45 ∷ 0 ∷ 0 ∷ len ∷ 0 ∷ 1 ∷ hi ∷ lo ∷ 64 ∷ 17 ∷ 0 ∷ 0 ∷ replicate 8 0;
  network_hdr = some 0;
  transport_hdr = none;
  user_payload_begin = none;
  user_payload_end = len;
}

-- 8, 16 and 4 bytes, at 0, 8 and 24.
abbrev frag1 : SocketBuffer
frag1 = frag 0x20 0 28

abbrev frag2 : SocketBuffer
frag2 = frag 0x20 1 36

abbrev frag3 : SocketBuffer
frag3 = frag 0 3 24

ready_iff_example : (ready (frag1 ∷ frag2 ∷ frag3 ∷ []) ≡ true) ↔ (
    Tiles 0 (frag1 ∷ frag2 ∷ frag3 ∷ [])
    × (more_frag (ip_hdr (last_frag frag1 (frag2 ∷ frag3 ∷ []))) ≡ false))
unfolding ip_header swap16
ready_iff_example =
    ready_iff frag1 (frag2 ∷ frag3 ∷ []) (omega arith, (omega arith, (omega arith, tt)))

frags-ready : ready (frag1 ∷ frag2 ∷ frag3 ∷ []) ≡ true
unfolding ip_header swap16 ready contiguous last_frag frag_offset more_frag
frags-ready = refl

abbrev empty0 : Defrager
empty0 = record { ctxs = []; next_address = 7 }

abbrev ctx0 : DefragContext
ctx0 = record {
  address = 7;
  ip_id = 0x0100;
  ip_protocol = 17;
  ip_saddr = 0;
  ip_daddr = 0;
  first = frag1 ∷ [];
}

defrag-IsValid_example : IsValid (record { ctxs = ctx0 ∷ []; next_address = 8 })
unfolding ip_header swap16 defrag context_of lookup insert_frag settle set_first ready contiguous
    last_frag more_frag frag_offset
defrag-IsValid_example =
    defrag-IsValid empty0 frag1 (record { ctxs = ctx0 ∷ []; next_address = 8 }) []
      (record { below = tt; apart = tt }) refl

abbrev lock0 : ℕ → Option Pcb
lock0 a = if a == 1 then some (record { faddr = 0; fport = 0; laddr = 5; lport = 9 }) else none

abbrev flow0 : Flow
flow0 = record { faddr = 4; fport = 8; laddr = 5; lport = 9 }

find-IsLast_example :
    ((find lock0 (1 ∷ 2 ∷ []) flow0 ≡ none) × All (λ a. ¬ TakesAt lock0 flow0 a) (1 ∷ 2 ∷ []))
    ⊎ ((a : ℕ) × (before after : List ℕ) × (1 ∷ 2 ∷ [] ≡ before ++ a ∷ after)
        × TakesAt lock0 flow0 a
        × All (λ b. ¬ TakesAt lock0 flow0 b) after
        × (find lock0 (1 ∷ 2 ∷ []) flow0 ≡ some a))
find-IsLast_example = find-IsLast lock0 flow0 (1 ∷ 2 ∷ [])
