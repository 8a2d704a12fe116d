-- ===== src/Union/Core/Protocol/Channels.antt =====
-- The life of a channel over every run of the protocol: it keeps its owner, its connection and its
-- counterparty's port, it moves forward alone, and a closed channel is final.
use gno_ibc.Prelude.{
  ℕ, ◌+◌, ◌^◌, ◌≤◌, ◌<◌, ◌≡◌, ◌≢◌, refl, ap, ◌∙◌, Option, none, some, Bytes, arith, inl, inr, eqb,
  eqb_iff, if◌then◌else◌, Bool-cases,
}
use gno_ibc.Union.Types.{Channel, ChannelState}
use gno_ibc.Union.Core.World.{Store, Env, ChannelEntry, TreeValue}
use gno_ibc.Union.Core.Store.{to_uint32}
use gno_ibc.Union.Core.Protocol.{
  ChannelMove, Step, Reach, here, next, find_channel, other, create_connection, move_connection,
  create_channel, move_channel, send, retire, receive, acknowledge, batch_send, batch_acks,
}

-- What the host relies on of bptree: a tree maps keys to the values that were set last.
pub record TreeLaws {T F : Type 0} (E : Env T F) : Type 0 where
  pub get_set : (t : T) (k : Bytes) (v : TreeValue) → E.tree_get (E.tree_set t k v) k ≡ some v
  pub get_set_other :
      (t : T) (k j : Bytes) (v : TreeValue)
      → k ≢ j
      → E.tree_get (E.tree_set t k v) j ≡ E.tree_get t j

-- What it relies on of seqid: ids are given in order, and no two of them have one key.
pub record SeqLaws {T F : Type 0} (E : Env T F) : Type 0 where
  pub in_order : (n m : ℕ) → E.seqid_next n ≡ some m → m ≡ n + 1
  pub distinct : (n m : ℕ) → E.seqid_binary n ≡ E.seqid_binary m → n ≡ m

-- A channel's moves, one after another.
pub data Moves (c : Channel) : Channel → Type 0 where
  stay : Moves c c
  move : {d e : Channel} → Moves c d → ChannelMove d e → Moves c e

Moves-trans : {c d e : Channel} → Moves c d → Moves d e → Moves c e
Moves-trans p stay = p
Moves-trans p (move q m) = move (Moves-trans p q) m

-- A channel that has moved is not the same channel anew: what identifies it is kept.
pub Moves-identity :
    {c d : Channel}
    → Moves c d
    → (d.connection_id ≡ c.connection_id) × (d.counterparty_port_id ≡ c.counterparty_port_id)
Moves-identity stay = (refl, refl)
Moves-identity (move p (ChannelMove.ack d ch v st)) = Moves-identity p
Moves-identity (move p (ChannelMove.confirm d st)) = Moves-identity p
Moves-identity (move p (ChannelMove.close d st)) = Moves-identity p

-- Nothing moves a closed channel.
pub Moves-closed : {c d : Channel} → Moves c d → c.state ≡ ChannelState.closed → d ≡ c
Moves-closed stay closed = refl
Moves-closed (move p (ChannelMove.ack d ch v st)) closed =
    let same = Moves-closed p closed in ground (arith, same, st, closed)
Moves-closed (move p (ChannelMove.confirm d st)) closed =
    let same = Moves-closed p closed in ground (arith, same, st, closed)
Moves-closed (move p (ChannelMove.close d st)) closed =
    let same = Moves-closed p closed in ground (arith, same, st, closed)

-- Every channel's id has been allocated.
abbrev pub Allocated : {T F : Type 0} → Env T F → Store T → Type 0
Allocated E s = (id : ℕ) → find_channel E s id ≢ none → id ≤ s.channel_seq

module _ {T F : Type 0} (E : Env T F) (trees : TreeLaws E) (seqs : SeqLaws E) where
  get_put :
      (t : T) (n id : ℕ) (v : TreeValue)
      → E.tree_get (E.tree_set t (E.seqid_binary n) v) (E.seqid_binary id)
        ≡ (if eqb n id then some v else E.tree_get t (E.seqid_binary id))
  get_put t n id v = elim (Bool-cases (eqb n id)) [
    | inl same ↦ rw (same, (eqb_iff n id).0 same) (trees.get_set t (E.seqid_binary id) v)
    | inr apart ↦ rw apart (
        trees.get_set_other t (E.seqid_binary n) (E.seqid_binary id) v
          (λ keys. ground (arith, apart, seqs.distinct n id keys)))
  ]

  Step-seq : {s t : Store T} → Step E s t → s.channel_seq ≤ t.channel_seq
  Step-seq (other same) = ground (arith, same.channel_seq)
  Step-seq (create_connection n c e st) = omega arith
  Step-seq (move_connection id c c' e m) = omega arith
  Step-seq {s} (create_channel n c port e st) = ground (arith, seqs.in_order s.channel_seq n e)
  Step-seq (move_channel id e c' f m) = omega arith
  Step-seq (send p at e f) = omega arith
  Step-seq (retire p at e f) = omega arith
  Step-seq (receive p at e f) = omega arith
  Step-seq (acknowledge p at ack e f) = omega arith
  Step-seq (batch_send ps hash many few e) = omega arith
  Step-seq (batch_acks ps acks hash many few len e) = omega arith

  Step-Allocated :
      {s t : Store T} → Step E s t → t.channel_seq < 2 ^ 32 → Allocated E s → Allocated E t
  Step-Allocated (other same) small all =
      λ id there. rw same.channel_seq (all id (rw (← same.channels) there))
  Step-Allocated (create_connection n c e st) small all = all
  Step-Allocated (move_connection id c c' e m) small all = all
  Step-Allocated {s} (create_channel n c port e st) small all = λ id there.
      elim (Bool-cases (eqb (to_uint32 n) id)) [
        | inl same ↦ ground (arith, same)
        | inr apart ↦
            let before = all id (λ gone. there (
              ground (
                arith,
                apart,
                gone,
                get_put s.channels (to_uint32 n) id
                    (TreeValue.channel_value (record { channel = c; port_id = port })),
              ))) in
            ground (arith, before, seqs.in_order s.channel_seq n e)
      ]
  Step-Allocated {s} (move_channel n e c' f m) small all = λ id there.
      elim (Bool-cases (eqb n id)) [
        | inl same ↦ all id (λ gone. ground (arith, same, gone, f))
        | inr apart ↦ all id (λ gone. there (
            ground (
              arith,
              apart,
              gone,
              get_put s.channels n id (TreeValue.channel_value (record e { channel = c' })),
            )))
      ]
  Step-Allocated (send p at e f) small all = all
  Step-Allocated (retire p at e f) small all = all
  Step-Allocated (receive p at e f) small all = all
  Step-Allocated (acknowledge p at ack e f) small all = all
  Step-Allocated (batch_send ps hash many few e) small all = all
  Step-Allocated (batch_acks ps acks hash many few len e) small all = all

  -- What a run leaves of a channel's entry: the entry is there, of the same owner, moved or not.
  abbrev pub Later : ChannelEntry → Option TreeValue → Type 0
  Later e found =
      (e' : ChannelEntry) × (found ≡ some (TreeValue.channel_value e'))
      × (e'.port_id ≡ e.port_id)
      × Moves e.channel e'.channel

  Step-life :
      {s t : Store T} (id : ℕ) (e : ChannelEntry)
      → Step E s t
      → t.channel_seq < 2 ^ 32
      → Allocated E s
      → find_channel E s id ≡ some (TreeValue.channel_value e)
      → Later e (find_channel E t id)
  Step-life id e (other same) small all found = (e, rw same.channels found, refl, stay)
  Step-life id e (create_connection n c a st) small all found = (e, found, refl, stay)
  Step-life id e (move_connection n c c' a m) small all found = (e, found, refl, stay)
  Step-life {s} id e (create_channel n c port a st) small all found =
      let old = all id (λ gone. ground (arith, gone, found)) in
      (
        e,
        ground (
          arith,
          found,
          old,
          seqs.in_order s.channel_seq n a,
          get_put s.channels (to_uint32 n) id
              (TreeValue.channel_value (record { channel = c; port_id = port })),
          eqb_iff (to_uint32 n) id,
        ),
        refl,
        stay,
      )
  Step-life {s} id e (move_channel n d c' f m) small all found = elim (Bool-cases (eqb n id)) [
    | inl same ↦
        let now = get_put s.channels n id (TreeValue.channel_value (record d { channel = c' })) in
        let one : d ≡ e = ground (arith, same, f, found, eqb_iff n id) in
        (
          record d { channel = c' },
          ground (arith, now, same),
          ap (λ x. x.port_id) one,
          rw (← one) (move stay m),
        )
    | inr apart ↦
        let now = get_put s.channels n id (TreeValue.channel_value (record d { channel = c' })) in
        (e, ground (arith, now, apart, found), refl, stay)
  ]
  Step-life id e (send p at a f) small all found = (e, found, refl, stay)
  Step-life id e (retire p at a f) small all found = (e, found, refl, stay)
  Step-life id e (receive p at a f) small all found = (e, found, refl, stay)
  Step-life id e (acknowledge p at ack a f) small all found = (e, found, refl, stay)
  Step-life id e (batch_send ps hash many few a) small all found = (e, found, refl, stay)
  Step-life id e (batch_acks ps acks hash many few len a) small all found = (e, found, refl, stay)

  pub Reach-Allocated :
      {s t : Store T} → Reach E s t → t.channel_seq < 2 ^ 32 → Allocated E s → Allocated E t
  Reach-Allocated here small all = all
  Reach-Allocated (next r st) small all =
      let less = Step-seq st in Step-Allocated st small (Reach-Allocated r (omega arith) all)

  pub Reach-life :
      {s t : Store T} (id : ℕ) (e : ChannelEntry)
      → Reach E s t
      → t.channel_seq < 2 ^ 32
      → Allocated E s
      → find_channel E s id ≡ some (TreeValue.channel_value e)
      → Later e (find_channel E t id)
  Reach-life id e here small all found = (e, found, refl, stay)
  Reach-life id e (next r st) small all found =
      let less = Step-seq st in
      let (d, there, owner, before) = Reach-life id e r (omega arith) all found in
      let (e', now, owner', after) =
        Step-life id d st small (Reach-Allocated r (omega arith) all) there in
      (e', now, owner' ∙ owner, Moves-trans before after)
