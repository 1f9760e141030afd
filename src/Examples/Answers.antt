-- ===== src/Examples/Answers.antt =====
-- A request that is read and answered, at concrete inputs.
use mu_quinet.Prelude.{
  ℕ, ◌≡◌, refl, ap, List, [], ◌∷◌, Bool, true, false, none, some, arith, pos, length, get_or,
}
use mu_quinet.Mux.Rpc.{Request, Calling, Response, RetCode, Returning}
use mu_quinet.Mux.Handler.{handle_request, close_call}
use mu_quinet.Mux.Channels.Messages.{
  Codec, CodecLaws, got, writes, on_read_ready, on_read_ready-encode,
}
use mu_quinet.Examples.Requests.{list_queue, garbage0, stack0, channel_of, socket0}

-- A codec: the process, a tag for the call, and its fields.
abbrev encode_calling : Calling → List ℕ
encode_calling (Calling.socket_call d t p) = 0 ∷ d ∷ t ∷ p ∷ []
encode_calling (Calling.connect_call a) = 1 ∷ a.family ∷ a.port ∷ a.addr ∷ []
encode_calling (Calling.recvfrom_call n f true) = 2 ∷ n ∷ f ∷ []
encode_calling (Calling.recvfrom_call n f false) = 3 ∷ n ∷ f ∷ []
encode_calling (Calling.sendto_call buf f none) = 4 ∷ f ∷ buf
encode_calling (Calling.sendto_call buf f (some a)) = 5 ∷ f ∷ a.family ∷ a.port ∷ a.addr ∷ buf
encode_calling (Calling.atstart_action name) = 6 ∷ name
encode_calling Calling.close_call = 7 ∷ []
encode_calling Calling.poll_call = 8 ∷ []
encode_calling Calling.select_call = 9 ∷ []
encode_calling Calling.getpeername_call = 10 ∷ []
encode_calling Calling.getsockname_call = 11 ∷ []
encode_calling Calling.getsockopt_call = 12 ∷ []
encode_calling Calling.setsockopt_call = 13 ∷ []
encode_calling Calling.fcntl_call = 14 ∷ []
encode_calling Calling.calling_not_set = 15 ∷ []

abbrev socket_of : List ℕ → Calling
socket_of (d ∷ t ∷ p ∷ []) = Calling.socket_call d t p
socket_of _ = Calling.calling_not_set

abbrev connect_of : List ℕ → Calling
connect_of (f ∷ p ∷ a ∷ []) = Calling.connect_call (record { family = f; port = p; addr = a })
connect_of _ = Calling.calling_not_set

abbrev recvfrom_of : Bool → List ℕ → Calling
recvfrom_of b (n ∷ f ∷ []) = Calling.recvfrom_call n f b
recvfrom_of b _ = Calling.calling_not_set

abbrev sendto_of : List ℕ → Calling
sendto_of (f ∷ buf) = Calling.sendto_call buf f none
sendto_of [] = Calling.calling_not_set

abbrev sendto_peer_of : List ℕ → Calling
sendto_peer_of (f ∷ m ∷ p ∷ a ∷ buf) =
    Calling.sendto_call buf f (some (record { family = m; port = p; addr = a }))
sendto_peer_of _ = Calling.calling_not_set

abbrev parsers : List (List ℕ → Calling)
parsers =
    socket_of
    ∷ connect_of
    ∷ recvfrom_of true
    ∷ recvfrom_of false
    ∷ sendto_of
    ∷ sendto_peer_of
    ∷ Calling.atstart_action
    ∷ (λ _. Calling.close_call)
    ∷ (λ _. Calling.poll_call)
    ∷ (λ _. Calling.select_call)
    ∷ (λ _. Calling.getpeername_call)
    ∷ (λ _. Calling.getsockname_call)
    ∷ (λ _. Calling.getsockopt_call)
    ∷ (λ _. Calling.setsockopt_call)
    ∷ (λ _. Calling.fcntl_call)
    ∷ []

abbrev parse_calling : List ℕ → Calling
parse_calling [] = Calling.calling_not_set
parse_calling (tag ∷ rest) = get_or parsers tag (λ _. Calling.calling_not_set) rest

pub parse-encode_calling : (call : Calling) → parse_calling (encode_calling call) ≡ call
parse-encode_calling (Calling.socket_call d t p) = refl
parse-encode_calling (Calling.connect_call a) = refl
parse-encode_calling (Calling.recvfrom_call n f true) = refl
parse-encode_calling (Calling.recvfrom_call n f false) = refl
parse-encode_calling (Calling.sendto_call buf f none) = refl
parse-encode_calling (Calling.sendto_call buf f (some a)) = refl
parse-encode_calling (Calling.atstart_action name) = refl
parse-encode_calling Calling.close_call = refl
parse-encode_calling Calling.poll_call = refl
parse-encode_calling Calling.select_call = refl
parse-encode_calling Calling.getpeername_call = refl
parse-encode_calling Calling.getsockname_call = refl
parse-encode_calling Calling.getsockopt_call = refl
parse-encode_calling Calling.setsockopt_call = refl
parse-encode_calling Calling.fcntl_call = refl
parse-encode_calling Calling.calling_not_set = refl

abbrev pub encode0 : Request → List ℕ
encode0 req = req.pid ∷ encode_calling req.calling

abbrev pub parse0 : List ℕ → Request
parse0 [] = record { pid = 0; calling = Calling.calling_not_set }
parse0 (pid ∷ rest) = record { pid = pid; calling = parse_calling rest }

abbrev serialize0 : Response → List ℕ
serialize0 resp = elim resp.retcode [ none ↦ [] | some _ ↦ 15 ∷ 1 ∷ [] ]

abbrev pub codec0 : Codec
codec0 = record {
  parse = parse0;
  parse_negative = parse0 [];
  byte_size = λ resp. length (serialize0 resp);
  serialize = serialize0;
}

pub codec0-CodecLaws : CodecLaws codec0 encode0
codec0-CodecLaws = record {
  parse-encode = λ req.
      ap (λ call. record { pid = req.pid; calling = call }) (parse-encode_calling req.calling);
  length-serialize = λ resp. refl;
}

on_read_ready-encode_example :
    on_read_ready list_queue garbage0 codec0 stack0 (channel_of socket0) (got (9 ∷ 7 ∷ []))
    ≡ writes stack0 (channel_of socket0) (15 ∷ 1 ∷ [])
unfolding handle_request close_call
on_read_ready-encode_example =
    on_read_ready-encode list_queue garbage0 codec0 encode0 codec0-CodecLaws stack0
      (channel_of socket0) (record { pid = 9; calling = Calling.close_call }) stack0
      (channel_of socket0)
      (record { retcode = some RetCode.ok; returning = Returning.close_ret (pos 0) none })
      (omega arith) refl refl (omega arith)
