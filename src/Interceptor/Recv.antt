-- ===== src/Interceptor/Recv.antt =====
-- req-resp-channel.c: the wait for an answer.
use mu_quinet.Prelude.{◌≡◌, refl, List, [], ◌∷◌, ◌++◌, none, some, All, ◌∙◌, arith}
use mu_quinet.Mux.Rpc.{Response, RetCode}

-- What one `read` of the channel gives. A message with no `retCode` is not one.
pub data ReadResult : Type 0 where
  eintr failed eof : ReadResult
  message : Response → ReadResult

pub data Received : Type 0 where
  blocked : Received
  aborted : Received
  got : Response → List ReadResult → Received

-- `channel_recv`, given what the reads that follow give: `blocked` if they do not end it. Every -1
-- repeats the read, whatever `errno` is.
unfoldable pub channel_recv : List ReadResult → Received
channel_recv [] = Received.blocked
channel_recv (ReadResult.eintr ∷ reads) = channel_recv reads
channel_recv (ReadResult.failed ∷ reads) = channel_recv reads
channel_recv (ReadResult.eof ∷ reads) = Received.aborted
channel_recv (ReadResult.message r ∷ reads) =
    let later = channel_recv reads in
    elim r.retcode [
      | none ↦ Received.aborted
      | some c ↦ elim c [
        | RetCode.wait_next ↦ later
        | RetCode.ok ↦ Received.got r reads
        | RetCode.error ↦ Received.got r reads
      ]
    ]

-- A read that `channel_recv` passes over: an error, or a message that says WAIT_NEXT.
pub data IsSkipped : ReadResult → Type 0 where
  eintr : IsSkipped ReadResult.eintr
  failed : IsSkipped ReadResult.failed
  wait_next : (r : Response) → r.retcode ≡ some RetCode.wait_next → IsSkipped (ReadResult.message r)

skips :
    (x : ReadResult) (reads : List ReadResult)
    → IsSkipped x
    → channel_recv (x ∷ reads) ≡ channel_recv reads
unfolding channel_recv
skips _ reads eintr = refl
skips _ reads failed = refl
skips _ reads (wait_next r e) = rw (channel_recv, e) refl

-- However many reads are interrupted, fail or say WAIT_NEXT, the first message that says OK is what
-- `channel_recv` returns, and it reads no further.
pub channel_recv-got :
    (before : List ReadResult) (r : Response) (after : List ReadResult)
    → All IsSkipped before
    → r.retcode ≡ some RetCode.ok
    → channel_recv (before ++ ReadResult.message r ∷ after) ≡ Received.got r after
unfolding channel_recv
channel_recv-got [] r after h e = ground (arith, e)
channel_recv-got (x ∷ before) r after (h, hs) e = skips x _ h ∙ channel_recv-got before r after hs e

-- If every read fails, `channel_recv` never returns.
pub channel_recv-blocked :
    (reads : List ReadResult) → All IsSkipped reads → channel_recv reads ≡ Received.blocked
unfolding channel_recv
channel_recv-blocked [] h = refl
channel_recv-blocked (x ∷ reads) (h, hs) = skips x reads h ∙ channel_recv-blocked reads hs
