-- ===== src/Ip/Defrag.antt =====
-- ip/frag/Defrager.cpp and DefragContext.h: the reassembly of fragments. A context is the list of
-- the fragments that came, by the `next` pointers, first to last; contexts are told apart by their
-- addresses, as `remove_if` does. The calls on libev only register a timer.
pub mod Insert
pub mod Complete
pub mod Contexts
use mu_quinet.Prelude.{
  ℕ, suc, ◌+◌, ◌-◌, ◌*◌, ◌^◌, List, [], ◌∷◌, ◌++◌, map, Bool, true, false, ◌&&◌, not, Option, none,
  some, ◌==◌, ltb, if◌then◌else◌, ℤ, pos, sub_ℕ, eq_ℤ, u16, swap16, low_bits, test_bit, take, drop,
}
use mu_quinet.Net.Headers.{IpHeader, put16, ip_header}
use mu_quinet.Net.Buffer.{SocketBuffer, ip_hdr}
use mu_quinet.Ip.Header.{frag_offset, more_frag}

pub record DefragContext : Type 0 where
  pub address : ℕ
  pub ip_id : ℕ
  pub ip_protocol : ℕ
  pub ip_saddr : ℕ
  pub ip_daddr : ℕ
  pub first : List SocketBuffer

-- `next_address` is an address that no context has had.
pub record Defrager : Type 0 where
  pub ctxs : List DefragContext
  pub next_address : ℕ

abbrev pub same_packet : IpHeader → DefragContext → Bool
same_packet h c =
    c.ip_id == h.id && c.ip_protocol == h.protocol && c.ip_saddr == h.saddr && c.ip_daddr == h.daddr

-- The first loop of `defrag`.
unfoldable pub lookup : IpHeader → List DefragContext → Option DefragContext
lookup h [] = none
lookup h (c ∷ cs) = if same_packet h c then some c else lookup h cs

-- `frag_off & IP_OFF_MASK`, without the change of byte order.
abbrev pub ours_off : SocketBuffer → ℕ
ours_off b = low_bits (ip_hdr b).frag_off 13

abbrev pub offset : SocketBuffer → ℕ
offset b = frag_offset (ip_hdr b)

-- The loop that walks to the place of the fragment, from a fragment that has one before it.
unfoldable pub insert_before : ℕ → SocketBuffer → List SocketBuffer → List SocketBuffer
insert_before ours skbuf [] = skbuf ∷ []
insert_before ours skbuf (curr ∷ rest) =
    let further = insert_before ours skbuf rest in
    if ltb (offset curr) ours then curr ∷ further else skbuf ∷ curr ∷ rest

-- Part 3 of `defrag`: `none` is the write through a null `prev`.
unfoldable pub insert_frag : SocketBuffer → List SocketBuffer → Option (List SocketBuffer)
unfolding insert_before
insert_frag skbuf [] = some (skbuf ∷ [])
insert_frag skbuf (f ∷ rest) =
    if ltb (offset skbuf) (offset f)
    then some (skbuf ∷ f ∷ rest)
    else if ltb (offset f) (ours_off skbuf)
    then some (f ∷ insert_before (ours_off skbuf) skbuf rest)
    else none

abbrev pub tot_len : SocketBuffer → ℕ
tot_len b = swap16 (ip_hdr b).tot_len

abbrev pub hdr_len : SocketBuffer → ℕ
hdr_len b = (ip_hdr b).ihl * 4

-- The loop on `expectedOff`, an `int`.
unfoldable pub contiguous : ℤ → List SocketBuffer → Bool
contiguous expected [] = true
contiguous expected (b ∷ bs) =
    eq_ℤ (offset b * 8) expected && contiguous (sub_ℕ (offset b * 8 + tot_len b) (hdr_len b)) bs

-- The fragment that the second loop stops at, in a list that starts with `b`.
unfoldable pub last_frag : SocketBuffer → List SocketBuffer → SocketBuffer
last_frag b [] = b
last_frag b (c ∷ cs) = last_frag c cs

unfoldable pub ready : List SocketBuffer → Bool
unfolding contiguous last_frag
ready [] = false
ready (f ∷ rest) = contiguous (pos 0) (f ∷ rest) && not (more_frag (ip_hdr (last_frag f rest)))

-- `payloadlen`, an `__le16`.
unfoldable pub payload_len : SocketBuffer → ℕ
payload_len last = u16 (offset last * 8 + tot_len last + 2 ^ 16 - hdr_len last)

-- Part 5. The first fragment gets a new total length.
unfoldable pub set_tot_len : SocketBuffer → ℕ → SocketBuffer
set_tot_len b n = record b {
  raw = take 2 b.raw ++ put16 (swap16 (u16 (n + hdr_len b))) (drop 4 b.raw);
}

-- The others lose the network header.
unfoldable pub adjust : SocketBuffer → SocketBuffer
adjust b = record b { network_hdr = none; user_payload_begin = some (ip_hdr b).ihl }

unfoldable pub reassemble : List SocketBuffer → List SocketBuffer
unfolding set_tot_len payload_len last_frag adjust
reassemble [] = []
reassemble (f ∷ rest) = set_tot_len f (payload_len (last_frag f rest)) ∷ map adjust rest

-- `remove_if`, for an address.
unfoldable pub remove_ctx : ℕ → List DefragContext → List DefragContext
remove_ctx a [] = []
remove_ctx a (c ∷ cs) = let rest = remove_ctx a cs in if c.address == a then rest else c ∷ rest

-- An assignment to `first` of the context at an address.
unfoldable pub set_first : ℕ → List SocketBuffer → List DefragContext → List DefragContext
set_first a l [] = []
set_first a l (c ∷ cs) =
    let rest = set_first a l cs in
    if c.address == a then record c { first = l } ∷ rest else c ∷ rest

-- Parts 1 and 2: the context of a fragment, a new one at the end of the list if there is none.
unfoldable pub context_of : Defrager → IpHeader → Defrager × DefragContext
unfolding lookup
context_of d h = elim (lookup h d.ctxs) [
  | some c ↦ (d, c)
  | none ↦
      let c : DefragContext = record {
        address = d.next_address;
        ip_id = h.id;
        ip_protocol = h.protocol;
        ip_saddr = h.saddr;
        ip_daddr = h.daddr;
        first = [];
      } in
      (record { ctxs = d.ctxs ++ c ∷ []; next_address = suc d.next_address }, c)
]

-- Parts 4 and 5, for a context whose fragments are now `l`. No buffers is a null `packet`.
unfoldable pub settle : Defrager → ℕ → List SocketBuffer → Defrager × List SocketBuffer
unfolding set_first remove_ctx ready reassemble
settle d a l =
    if ready l
    then (record d { ctxs = remove_ctx a d.ctxs }, reassemble l)
    else (record d { ctxs = set_first a l d.ctxs }, [])

-- `defrag`: `none` is a crash.
unfoldable pub defrag : Defrager → SocketBuffer → Option (Defrager × List SocketBuffer)
unfolding context_of insert_frag settle
defrag d skbuf =
    let (d', ctx) = context_of d (ip_hdr skbuf) in
    elim (insert_frag skbuf ctx.first) [ none ↦ none | some l ↦ some (settle d' ctx.address l) ]

-- `timeout_cb`, for the context at an address: it may be gone.
unfoldable pub timeout_cb : ℕ → Defrager → Defrager
unfolding remove_ctx
timeout_cb a d = record d { ctxs = remove_ctx a d.ctxs }
