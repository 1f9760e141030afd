-- ===== src/Examples/Starting.antt =====
-- An encoding of answers, and the start of a process at concrete inputs.
use mu_quinet.Prelude.{
  ℕ, ◌≡◌, refl, sym, ap, ap₂, ◌∙◌, inl, inr, Option-cases, List, [], ◌∷◌, true, Option, none, some,
  arith, ℤ, pos, negsuc, get_or, length, replicate, length-replicate,
}
use mathlib.Core.Bool.{true≢false}
use mu_quinet.Mux.Rpc.{SockAddr, Response, RetCode, Returning, empty_response, is_initialized}
use mu_quinet.Mux.Channels.Messages.{Codec}
use mu_quinet.Interceptor.Start.{Client, System, atstart}
use mu_quinet.Interceptor.Start.Answered.{Agree, Works, Registers, interceptor_init-on_read_ready}
use mu_quinet.Examples.Requests.{list_queue, garbage0, stack0, socket0, channel_of}
use mu_quinet.Examples.Answers.{encode0, codec0, codec0-CodecLaws}

-- One number for each part: a sign, a presence, a tag.
abbrev put_int : ℤ → List ℕ → List ℕ
put_int (pos n) l = 0 ∷ n ∷ l
put_int (negsuc n) l = 1 ∷ n ∷ l

abbrev get_int : ℕ → ℕ → ℤ
get_int sign n = get_or (pos n ∷ []) sign (negsuc n)

abbrev put_errno : Option ℕ → List ℕ → List ℕ
put_errno none l = 0 ∷ 0 ∷ l
put_errno (some e) l = 1 ∷ e ∷ l

abbrev get_errno : ℕ → ℕ → Option ℕ
get_errno there e = get_or (none ∷ []) there (some e)

abbrev put_addr : Option SockAddr → List ℕ → List ℕ
put_addr none l = 0 ∷ 0 ∷ 0 ∷ 0 ∷ l
put_addr (some a) l = 1 ∷ a.family ∷ a.port ∷ a.addr ∷ l

abbrev get_addr : ℕ → ℕ → ℕ → ℕ → Option SockAddr
get_addr there family port addr =
    get_or (none ∷ []) there (some (record { family = family; port = port; addr = addr }))

abbrev put_buf : Option (List ℕ) → List ℕ
put_buf none = 0 ∷ []
put_buf (some l) = 1 ∷ l

abbrev get_buf : ℕ → List ℕ → Option (List ℕ)
get_buf there l = get_or (none ∷ []) there (some l)

abbrev put_fields : ℕ → ℤ → Option ℕ → Option SockAddr → Option (List ℕ) → List ℕ
put_fields tag ret e addr buf = tag ∷ put_int ret (put_errno e (put_addr addr (put_buf buf)))

abbrev put_returning : Returning → List ℕ
put_returning Returning.not_set = put_fields 0 (pos 0) none none none
put_returning (Returning.socket_ret ret e) = put_fields 1 ret e none none
put_returning (Returning.connect_ret ret e) = put_fields 2 ret e none none
put_returning (Returning.close_ret ret e) = put_fields 3 ret e none none
put_returning (Returning.sendto_ret ret e) = put_fields 4 ret e none none
put_returning (Returning.recvfrom_ret ret e buf addr) = put_fields 5 ret e addr buf
put_returning (Returning.getpeername_ret ret e name) = put_fields 6 ret e name none
put_returning (Returning.getsockname_ret ret e name) = put_fields 7 ret e name none
put_returning (Returning.atstart_ret startfd count) =
    put_fields 8 (pos startfd) (some count) none none

abbrev get_fields : ℕ → ℤ → Option ℕ → Option SockAddr → Option (List ℕ) → ℕ → ℕ → Returning
get_fields tag ret e addr buf m n =
    get_or
      (Returning.not_set
        ∷ Returning.socket_ret ret e
        ∷ Returning.connect_ret ret e
        ∷ Returning.close_ret ret e
        ∷ Returning.sendto_ret ret e
        ∷ Returning.recvfrom_ret ret e buf addr
        ∷ Returning.getpeername_ret ret e addr
        ∷ Returning.getsockname_ret ret e addr
        ∷ [])
      tag (Returning.atstart_ret m n)

abbrev get_returning : List ℕ → Returning
get_returning (tag ∷ s ∷ m ∷ t ∷ n ∷ u ∷ family ∷ port ∷ addr ∷ v ∷ buf) =
    get_fields tag (get_int s m) (get_errno t n) (get_addr u family port addr) (get_buf v buf) m n
get_returning _ = Returning.not_set

abbrev codes : RetCode → ℕ
codes RetCode.ok = 0
codes RetCode.error = 1
codes RetCode.wait_next = 2

abbrev pack_answer : Response → List ℕ
pack_answer r = elim r.retcode [ none ↦ [] | some c ↦ codes c ∷ put_returning r.returning ]

abbrev unpack_answer : List ℕ → Response
unpack_answer [] = empty_response
unpack_answer (c ∷ l) = record {
  retcode = some (get_or (RetCode.ok ∷ RetCode.error ∷ []) c RetCode.wait_next);
  returning = get_returning l;
}

get_returning-put_fields :
    (tag : ℕ) (ret : ℤ) (e : Option ℕ) (addr : Option SockAddr) (buf : Option (List ℕ))
    → (m n : ℕ) × (get_returning (put_fields tag ret e addr buf)
        ≡ get_fields tag ret e addr buf m n)
get_returning-put_fields tag (pos k) none none none = (k, 0, refl)
get_returning-put_fields tag (pos k) none none (some l) = (k, 0, refl)
get_returning-put_fields tag (pos k) none (some a) none = (k, 0, refl)
get_returning-put_fields tag (pos k) none (some a) (some l) = (k, 0, refl)
get_returning-put_fields tag (pos k) (some e) none none = (k, e, refl)
get_returning-put_fields tag (pos k) (some e) none (some l) = (k, e, refl)
get_returning-put_fields tag (pos k) (some e) (some a) none = (k, e, refl)
get_returning-put_fields tag (pos k) (some e) (some a) (some l) = (k, e, refl)
get_returning-put_fields tag (negsuc k) none none none = (k, 0, refl)
get_returning-put_fields tag (negsuc k) none none (some l) = (k, 0, refl)
get_returning-put_fields tag (negsuc k) none (some a) none = (k, 0, refl)
get_returning-put_fields tag (negsuc k) none (some a) (some l) = (k, 0, refl)
get_returning-put_fields tag (negsuc k) (some e) none none = (k, e, refl)
get_returning-put_fields tag (negsuc k) (some e) none (some l) = (k, e, refl)
get_returning-put_fields tag (negsuc k) (some e) (some a) none = (k, e, refl)
get_returning-put_fields tag (negsuc k) (some e) (some a) (some l) = (k, e, refl)

get_returning-put_returning : (r : Returning) → get_returning (put_returning r) ≡ r
get_returning-put_returning Returning.not_set = refl
get_returning-put_returning (Returning.socket_ret ret e) =
    (get_returning-put_fields 1 ret e none none).2
get_returning-put_returning (Returning.connect_ret ret e) =
    (get_returning-put_fields 2 ret e none none).2
get_returning-put_returning (Returning.close_ret ret e) =
    (get_returning-put_fields 3 ret e none none).2
get_returning-put_returning (Returning.sendto_ret ret e) =
    (get_returning-put_fields 4 ret e none none).2
get_returning-put_returning (Returning.recvfrom_ret ret e buf addr) =
    (get_returning-put_fields 5 ret e addr buf).2
get_returning-put_returning (Returning.getpeername_ret ret e name) =
    (get_returning-put_fields 6 ret e name none).2
get_returning-put_returning (Returning.getsockname_ret ret e name) =
    (get_returning-put_fields 7 ret e name none).2
get_returning-put_returning (Returning.atstart_ret startfd count) = refl

get_code : (c : RetCode) → get_or (RetCode.ok ∷ RetCode.error ∷ []) (codes c) RetCode.wait_next ≡ c
get_code RetCode.ok = refl
get_code RetCode.error = refl
get_code RetCode.wait_next = refl

unpack-pack : (r : Response) → is_initialized r ≡ true → unpack_answer (pack_answer r) ≡ r
unfolding is_initialized
unpack-pack r h = elim (Option-cases r.retcode) [
  | inl n ↦ absurd (true≢false (ground (arith, h, n)))
  | inr (c, n) ↦
      rw n (
        ap₂ (λ x y. record { retcode = some x; returning = y }) (get_code c)
          (get_returning-put_returning r.returning))
      ∙ ap (λ x. record { retcode = x; returning = r.returning }) (sym n)
]

abbrev codec1 : Codec
codec1 = record codec0 { byte_size = λ resp. length (pack_answer resp); serialize = pack_answer }

abbrev client1 : Client
client1 = record {
  packed_size = λ req. length (encode0 req);
  pack = encode0;
  unpack = unpack_answer;
}

client1-Agree : Agree client1 codec1
client1-Agree = record {
  laws = record { parse-encode = codec0-CodecLaws.parse-encode; length-serialize = λ resp. refl };
  unpack-serialize = unpack-pack;
  length-pack = λ req. refl;
}

-- A C library with all functions, and memory for the table.
abbrev system0 : System
system0 = record {
  dlsym = λ f. some 4096;
  sockfd = some 3;
  connected = true;
  written = some 4;
  reads = [];
  memory = replicate 1024 0;
}

abbrev name0 : List ℕ
name0 = 99 ∷ 97 ∷ []

system0-Works : Works client1 system0 3 (atstart 9 name0)
system0-Works = record {
  finds = λ f. (4096, refl);
  sockfd = refl;
  connected = refl;
  written = refl;
  memory = omega (arith, length-replicate {A = ℕ} 1024 0);
}

interceptor_init-on_read_ready_example :
    Registers list_queue garbage0 codec1 client1 system0 3 9 name0 stack0 (channel_of socket0)
interceptor_init-on_read_ready_example =
    interceptor_init-on_read_ready list_queue garbage0 codec1 client1 system0 3 9 name0 stack0
      (channel_of socket0) client1-Agree system0-Works (omega arith) (omega arith) (omega arith)
