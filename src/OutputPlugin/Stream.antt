-- ===== src/OutputPlugin/Stream.antt =====
-- storage/wal_decode.rs: what a whole transaction writes to the output.
use pg_eddy.Common.{
  ℕ, ◌≡◌, refl, sym, ap, ◌∙◌, inl, inr, Bool, true, false, ◌&&◌, ◌^◌, List, [], ◌∷◌, ◌++◌,
  append-nil, append_assoc, ltb, length, Bool-cases, ok, fail_if, >>=-eq-ok, Result-cases,
}
use pg_eddy.Json.{SerdeJson}
use pg_eddy.Cdc.{Mutation, Frame, begin_frame, commit_frame, mutation_frame}
use pg_eddy.Cdc.Encode.{encode_frame}
use pg_eddy.Cdc.Decode.{decode_logical_message}
use pg_eddy.OutputPlugin.{
  Private, null_private, marker, Transaction, Output, Session, Message, ignored, payload_of,
  data_is_null, null_payload, begin_callback, write_frame, write_begin, message_callback,
  commit_callback, messages, transaction,
}

module _ {N : Type 0} (serde : SerdeJson N) where
  -- The mutation frames that a sequence of messages stands for: one for each message of pg_eddy,
  -- in order, with the LSN at which it was logged.
  pub data Emits : List Message → List (Frame N) → Type 0 where
    done : Emits [] []
    skip :
        {m : Message} {ms : List Message} {fs : List (Frame N)}
        → ignored m ≡ true
        → Emits ms fs
        → Emits (m ∷ ms) fs
    emit :
        {m : Message} {ms : List Message} {fs : List (Frame N)} (x : Mutation N)
        → ignored m ≡ false
        → decode_logical_message serde (payload_of m) ≡ ok x
        → Emits ms fs
        → Emits (m ∷ ms) (mutation_frame m.message_lsn x ∷ fs)

  -- The written chunks are the encodings of the frames, with their `last_write` marks.
  abbrev pub Written : List (Frame N × Bool) → Output → Type 0
  Written [] [] = Unit
  Written ((f, l) ∷ fs) ((bs, k) ∷ out) = (encode_frame serde f ≡ ok bs) × (k ≡ l) × Written fs out
  Written _ _ = ⊥

  Written-append :
      (fs gs : List (Frame N × Bool)) (out more : Output)
      → Written fs out
      → Written gs more
      → Written (fs ++ gs) (out ++ more)
  Written-append [] gs [] more h k = k
  Written-append ((f, l) ∷ fs) gs ((bs, b) ∷ out) more (e, q, h) k =
      (e, q, Written-append fs gs out more h k)
  Written-append [] gs (o ∷ out) more h k = absurd h
  Written-append ((f, l) ∷ fs) gs [] more h k = absurd h

  -- `out'` is `out` with the encodings of `fs` behind it.
  pub record Appends (fs : List (Frame N × Bool)) (out out' : Output) : Type 0 where
    pub chunks : Output
    pub behind : out' ≡ out ++ chunks
    pub written : Written fs chunks

  Appends-refl : (out : Output) → Appends [] out out
  Appends-refl out = record { chunks = []; behind = sym (append-nil out); written = tt }

  Appends-trans :
      {fs gs : List (Frame N × Bool)} {a b c : Output}
      → Appends fs a b
      → Appends gs b c
      → Appends (fs ++ gs) a c
  Appends-trans {fs} {gs} {a} h k = record {
    chunks = h.chunks ++ k.chunks;
    behind = k.behind ∙ ap (λ t. t ++ k.chunks) h.behind ∙ append_assoc a h.chunks k.chunks;
    written = Written-append fs gs h.chunks k.chunks h.written k.written;
  }

  write_frame-Appends :
      (f : Frame N) (last : Bool) (out : Output) {out' : Output}
      → write_frame serde f last out ≡ ok out'
      → Appends ((f, last) ∷ []) out out'
  unfolding write_frame
  write_frame-Appends f last out e = elim (Result-cases (encode_frame serde f)) [
    | inr (x, bad) ↦ absurd (cc (rw bad at e))
    | inl (bs, good) ↦ elim (Bool-cases (ltb (length bs) (2 ^ 31))) [
      | inr long ↦ absurd (cc (rw (good, long) at e))
      | inl short ↦ record {
        chunks = (bs, last) ∷ [];
        behind = cc (rw (good, short) at e);
        written = (good, refl, tt);
      }
    ]
  ]

  abbrev pub plain : List (Frame N) → List (Frame N × Bool)
  plain [] = []
  plain (f ∷ fs) = (f, false) ∷ plain fs

  -- BEGIN is due where nothing has been written in the transaction.
  abbrev opening : Transaction → List (Frame N × Bool)
  opening t = elim t.private_data [ null_private ↦ (begin_frame t.xid, false) ∷ [] | _ ↦ [] ]

  abbrev marked : Transaction → Transaction
  marked t = record t { private_data = elim t.private_data [ null_private ↦ marker | p ↦ p ] }

  record Began (t : Transaction) (out : Output) (s : Session) : Type 0 where
    appends : Appends (opening t) out s.out
    txn : s.txn ≡ marked t

  write_begin-Began :
      (xid end_lsn : ℕ) (p : Private) (out : Output) {s : Session}
      → let t : Transaction = record { xid = xid; end_lsn = end_lsn; private_data = p } in
        write_begin serde (record { txn = t; out = out }) ≡ ok s → Began t out s
  unfolding write_begin
  write_begin-Began xid end_lsn null_private out {s} e =
      let (out', e₁, e₂) = >>=-eq-ok (write_frame serde (begin_frame xid) false out) _ e in
      let q : record {
        txn = record { xid = xid; end_lsn = end_lsn; private_data = marker };
        out = out';
      }
          ≡ s =
        cc in
      rw (← q) (record { appends = write_frame-Appends (begin_frame xid) false out e₁; txn = refl })
  write_begin-Began xid end_lsn p out {s} e =
      let q : record { txn = record { xid = xid; end_lsn = end_lsn; private_data = p }; out = out }
          ≡ s =
        cc in
      rw (← q) (record { appends = Appends-refl out; txn = refl })

  -- One message of pg_eddy: the mutation it carries, written behind BEGIN where that is due.
  record Wrote (m : Message) (s s' : Session) : Type 0 where
    mutation : Mutation N
    decoded : decode_logical_message serde (payload_of m) ≡ ok mutation
    appends :
        Appends
          (opening s.txn ++ ((mutation_frame m.message_lsn mutation, false) ∷ []))
          s.out
          s'.out
    txn : s'.txn ≡ marked s.txn

  message-Wrote :
      (m : Message) (s : Session) {s' : Session}
      → ignored m ≡ false
      → message_callback serde false m s ≡ ok s'
      → Wrote m s s'
  unfolding message_callback
  message-Wrote m s {s'} seen e =
      let (_, _, e₁) =
        >>=-eq-ok (fail_if (ltb 0 m.message_size && data_is_null m) null_payload) _
          (rw seen at e) in
      elim (Result-cases (decode_logical_message serde (payload_of m))) [
        | inr (x, bad) ↦ absurd (cc (rw bad at e₁))
        | inl (x, good) ↦
            let (s₁, e₂, e₃) = >>=-eq-ok (write_begin serde s) _ (rw good at e₁) in
            let (out, e₄, e₅) =
              >>=-eq-ok (write_frame serde (mutation_frame m.message_lsn x) false s₁.out) _ e₃ in
            let began = write_begin-Began s.txn.xid s.txn.end_lsn s.txn.private_data s.out e₂ in
            let q : record s₁ { out = out } ≡ s' = cc in
            rw (← q) (record {
              mutation = x;
              decoded = good;
              appends =
                  Appends-trans began.appends
                    (write_frame-Appends (mutation_frame m.message_lsn x) false s₁.out e₄);
              txn = began.txn;
            })
      ]

  -- What messages that stand for the frames `fs` write after `t`, and what they make of `t`.
  abbrev stream : Transaction → List (Frame N) → List (Frame N × Bool)
  stream t [] = []
  stream t (f ∷ fs) = opening t ++ plain (f ∷ fs)

  abbrev after : Transaction → List (Frame N) → Transaction
  after t [] = t
  after t (f ∷ fs) = marked t

  stream-marked :
      (xid end_lsn : ℕ) (p : Private) (fs : List (Frame N))
      → let t : Transaction = record { xid = xid; end_lsn = end_lsn; private_data = p } in
        (stream (marked t) fs ≡ plain fs) × (after (marked t) fs ≡ marked t)
  stream-marked xid end_lsn null_private [] = (refl, refl)
  stream-marked xid end_lsn null_private (f ∷ fs) = (refl, refl)
  stream-marked xid end_lsn p [] = (refl, refl)
  stream-marked xid end_lsn p (f ∷ fs) = (refl, refl)

  record Ran (ms : List Message) (s s' : Session) : Type 0 where
    frames : List (Frame N)
    emits : Emits ms frames
    appends : Appends (stream s.txn frames) s.out s'.out
    txn : s'.txn ≡ after s.txn frames

  -- A message of another producer changes nothing and writes nothing.
  message_ignored :
      (m : Message) (s : Session) → ignored m ≡ true → message_callback serde false m s ≡ ok s
  unfolding message_callback
  message_ignored m s over = rw over

  messages-Ran :
      (ms : List Message) (s : Session) {s' : Session} → messages serde ms s ≡ ok s' → Ran ms s s'
  unfolding messages
  messages-Ran [] s {s'} e =
      let q : s ≡ s' = cc in
      rw (← q) (record { frames = []; emits = done; appends = Appends-refl s.out; txn = refl })
  messages-Ran (m ∷ ms) s {s'} e =
      let (s₁, e₁, e₂) = >>=-eq-ok (message_callback serde false m s) _ e in
      let ran = messages-Ran ms s₁ e₂ in
      elim (Bool-cases (ignored m)) [
        | inl over ↦
            let q : s ≡ s₁ = cc (message_ignored m s over) in
            let same : Ran ms s s' = rw q ran in
            record {
              frames = same.frames;
              emits = skip over same.emits;
              appends = same.appends;
              txn = same.txn;
            }
        | inr seen ↦
            let wrote = message-Wrote m s seen e₁ in
            let (same_stream, same_after) =
              stream-marked s.txn.xid s.txn.end_lsn s.txn.private_data ran.frames in
            let rest : Appends (plain ran.frames) s₁.out s'.out =
              rw (wrote.txn, same_stream) at ran.appends in
            let f = mutation_frame m.message_lsn wrote.mutation in
            record {
              frames = f ∷ ran.frames;
              emits = emit wrote.mutation seen wrote.decoded ran.emits;
              appends =
                  rw (append_assoc (opening s.txn) ((f, false) ∷ []) (plain ran.frames)) at
                    (Appends-trans wrote.appends rest);
              txn = ran.txn ∙ ap (λ t. after t ran.frames) wrote.txn ∙ same_after;
            }
      ]

  -- The whole of a transaction's output: nothing, or its frames between BEGIN and the last COMMIT.
  abbrev pub bracket : Transaction → ℕ → List (Frame N) → List (Frame N × Bool)
  bracket t commit_lsn [] = []
  bracket t commit_lsn (f ∷ fs) =
      ((begin_frame t.xid, false) ∷ plain (f ∷ fs))
      ++ ((commit_frame t.xid commit_lsn t.end_lsn, true) ∷ [])

  pub record Delivered (ms : List Message) (commit_lsn : ℕ) (s s' : Session) : Type 0 where
    pub frames : List (Frame N)
    pub emits : Emits ms frames
    pub appends : Appends (bracket s.txn commit_lsn frames) s.out s'.out

  abbrev closing : Transaction → ℕ → List (Frame N) → List (Frame N × Bool)
  closing t commit_lsn [] = []
  closing t commit_lsn (f ∷ fs) = (commit_frame t.xid commit_lsn t.end_lsn, true) ∷ []

  abbrev fresh : Transaction → Transaction
  fresh t = record t { private_data = null_private }

  commit-Appends :
      (t : Transaction) (commit_lsn : ℕ) (fs : List (Frame N)) (s : Session) {s' : Session}
      → s.txn ≡ after (fresh t) fs
      → commit_callback serde false commit_lsn s ≡ ok s'
      → Appends (closing t commit_lsn fs) s.out s'.out
  unfolding commit_callback
  commit-Appends t commit_lsn [] s {s'} h e =
      let q : s ≡ s' = cc (rw h at e) in rw (← q) (Appends-refl s.out)
  commit-Appends t commit_lsn (f ∷ fs) s {s'} h e =
      let (out, e₁, e₂) =
        >>=-eq-ok (write_frame serde (commit_frame t.xid commit_lsn t.end_lsn) true s.out) _
          (rw h at e) in
      let q : record { txn = after (fresh t) (f ∷ fs); out = out } ≡ s' = cc in
      rw (← q) (write_frame-Appends (commit_frame t.xid commit_lsn t.end_lsn) true s.out e₁)

  stream-closing :
      (t : Transaction) (commit_lsn : ℕ) (fs : List (Frame N))
      → stream (fresh t) fs ++ closing t commit_lsn fs ≡ bracket t commit_lsn fs
  stream-closing t commit_lsn [] = refl
  stream-closing t commit_lsn (f ∷ fs) = refl

  -- A transaction that the plugin decodes without an error writes nothing if it has no message of
  -- pg_eddy. Else it writes BEGIN with its xid, the mutation of each such message in order with the
  -- message's LSN, and COMMIT as the only chunk marked as the last write. An earlier private
  -- pointer makes no difference.
  pub transaction-Delivered :
      (ms : List Message) (commit_lsn : ℕ) (s s' : Session)
      → transaction serde ms commit_lsn s ≡ ok s'
      → Delivered ms commit_lsn s s'
  unfolding transaction begin_callback
  transaction-Delivered ms commit_lsn s s' e =
      let start : Session = record s { txn = fresh s.txn } in
      let (s₁, e₁, e₂) = >>=-eq-ok (messages serde ms start) _ e in
      let ran = messages-Ran ms start e₁ in
      let closed = commit-Appends s.txn commit_lsn ran.frames s₁ ran.txn e₂ in
      record {
        frames = ran.frames;
        emits = ran.emits;
        appends =
            rw (stream-closing s.txn commit_lsn ran.frames) at (Appends-trans ran.appends closed);
      }
