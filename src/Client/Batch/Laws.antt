-- ===== src/Client/Batch/Laws.antt =====
-- What the batch collector of crates/client/src/client.rs does with the items that it receives.
use distributed_acid_kv_stor.Common.{
  ℕ, ◌<◌, max, ◌≡◌, refl, sym, inl, inr, Bool-cases, List, [], ◌∷◌, ◌++◌, append_assoc, append-nil,
  All, ◌≢◌, some, map, lt→leb, ne→==, ==_refl, length, length-append, leb, arith,
}
use distributed_acid_kv_stor.Client.Batch.{
  Sender, Event, received, closed, timed_out, Phase, gathering, dropped, Run, turn, flush,
  after_flush, work, reply_to,
}

-- The items that reach the task: those before the channel is closed.
unfoldable pub submitted : {Item : Type 0} → List (Event Item) → List Item
submitted [] = []
submitted (received item ∷ events) = item ∷ submitted events
submitted (closed ∷ events) = []
submitted (timed_out ∷ events) = submitted events

-- The channel is not closed.
abbrev pub IsOpen : {Item : Type 0} → Event Item → Type 0
IsOpen (received item) = Unit
IsOpen closed = ⊥
IsOpen timed_out = Unit

-- The items that the task holds and has made no call for.
abbrev pub unanswered : {Item : Type 0} → Phase Item → List Item
unanswered (gathering items) = items
unanswered (dropped items) = items

module _ {Item World A : Type 0} (tx : Item → Sender) (call : Item → World → A × World) where
  pub flush-append :
      (xs ys : List Item) (w : World)
      → flush tx call (xs ++ ys) w ≡ (
        (flush tx call xs w).0 ++ (flush tx call ys (flush tx call xs w).1).0,
        (flush tx call ys (flush tx call xs w).1).1,
      )
  unfolding flush
  flush-append [] ys w = refl
  flush-append (x ∷ xs) ys w = rw (flush-append xs ys (call x w).1)

  -- The calls of these items one by one, in their order, each with the answer to its sender.
  pub data Answers : List Item → World → List (Sender × A) → World → Type 0 where
    none_left : {w : World} → Answers [] w [] w
    answers_next :
        {items : List Item} {w v : World} {replies : List (Sender × A)} (item : Item)
        → Answers items (call item w).1 replies v
        → Answers (item ∷ items) w ((tx item, (call item w).0) ∷ replies) v

  flush-Answers :
      (items : List Item) (w : World)
      → Answers items w (flush tx call items w).0 (flush tx call items w).1
  unfolding flush
  flush-Answers [] w = none_left
  flush-Answers (item ∷ items) w = answers_next item (flush-Answers items (call item w).1)

  Answers-append :
      {xs ys : List Item} {u v w : World} {ps qs : List (Sender × A)}
      → Answers xs u ps v
      → Answers ys v qs w
      → Answers (xs ++ ys) u (ps ++ qs) w
  Answers-append none_left h = h
  Answers-append (answers_next item g) h = answers_next item (Answers-append g h)

  -- The calls of `served` and nothing else have been made, and only its items have an answer; the
  -- rest is held back, fewer than a batch.
  pub record Serves (batch_size : ℕ) (items : List Item) (w : World) (r : Run Item World A)
      (served : List Item) : Type 0 where
    pub shares : items ≡ served ++ unanswered r.phase
    pub answers : Answers served w r.replies r.world
    pub small : length (unanswered r.phase) < max 1 batch_size

  after_flush-Serves :
      (batch_size : ℕ) (batch items served : List Item) (w : World) (r : Run Item World A)
      → Serves batch_size items (flush tx call batch w).1 r served
      → Serves batch_size
          (batch ++ items)
          w
          (after_flush (flush tx call batch w).0 r)
          (batch ++ served)
  after_flush-Serves batch_size batch items served w r v = record {
    shares = rw (v.shares) (sym (append_assoc batch served (unanswered r.phase)));
    answers = Answers-append (flush-Answers batch w) v.answers;
    small = v.small;
  }

  work-Serves_from :
      (batch_size : ℕ) (items : List Item) (events : List (Event Item)) (w : World)
      → length items < max 1 batch_size
      → (served : List Item) × Serves batch_size
          (items ++ submitted events)
          w
          (work tx call batch_size items events w)
          served
  unfolding work turn submitted flush
  work-Serves_from batch_size items [] w small =
      ([], record { shares = append-nil items; answers = none_left; small = small })
  work-Serves_from batch_size items (closed ∷ events) w small =
      ([], record { shares = append-nil items; answers = none_left; small = small })
  work-Serves_from batch_size items (timed_out ∷ events) w small =
      let (served, v) =
        work-Serves_from batch_size [] events (flush tx call items w).1 (omega arith) in
      (
        items ++ served,
        after_flush-Serves batch_size items (submitted events) served w
            (work tx call batch_size [] events (flush tx call items w).1) v,
      )
  work-Serves_from batch_size items (received item ∷ events) w small =
      elim (Bool-cases (leb batch_size (length (items ++ item ∷ [])))) [
        | inl full ↦
            let (served, v) =
              work-Serves_from batch_size [] events (flush tx call (items ++ item ∷ []) w).1
                (omega arith) in
            rw (← append_assoc items (item ∷ []) (submitted events), work, turn, full)
              (
                (items ++ item ∷ []) ++ served,
                after_flush-Serves batch_size (items ++ item ∷ []) (submitted events) served w
                    (work tx call batch_size [] events (flush tx call (items ++ item ∷ []) w).1) v,
              )
        | inr more ↦
            rw (← append_assoc items (item ∷ []) (submitted events), work, turn, more)
              (work-Serves_from batch_size (items ++ item ∷ []) events w (ground arith))
      ]

  -- The collector changes neither the calls nor their order: whatever the events, the calls made
  -- are those of the first items submitted, in their order, and the answers are theirs; the rest,
  -- fewer than a batch and at most none of a batch of one, waits or is dropped.
  pub work-Serves :
      (batch_size : ℕ) (events : List (Event Item)) (w : World)
      → (served : List Item) × Serves batch_size
          (submitted events)
          w
          (work tx call batch_size [] events w)
          served
  work-Serves batch_size events w = work-Serves_from batch_size [] events w (omega arith)

  -- An interval that is over leaves nothing behind.
  pub work_timed_out :
      (batch_size : ℕ) (items : List Item) (events : List (Event Item)) (w : World)
      → All IsOpen events
      → work tx call batch_size items (events ++ timed_out ∷ []) w ≡ record {
        replies = (flush tx call (items ++ submitted events) w).0;
        world = (flush tx call (items ++ submitted events) w).1;
        phase = gathering [];
      }
  unfolding work turn submitted
  work_timed_out batch_size items [] w o =
      rw (append-nil items) (ground (arith, append-nil (flush tx call items w).0))
  work_timed_out batch_size items (closed ∷ events) w o = absurd o.0
  work_timed_out batch_size items (timed_out ∷ events) w o = rw (
    work_timed_out batch_size [] events (flush tx call items w).1 o.1,
    flush-append items (submitted events) w,
  )
  work_timed_out batch_size items (received item ∷ events) w o =
      elim (Bool-cases (leb batch_size (length (items ++ item ∷ [])))) [
        | inl full ↦ rw (
          ← append_assoc items (item ∷ []) (submitted events),
          work,
          turn,
          full,
          work_timed_out batch_size [] events (flush tx call (items ++ item ∷ []) w).1 o.1,
          flush-append (items ++ item ∷ []) (submitted events) w,
        )
        | inr more ↦
            rw (← append_assoc items (item ∷ []) (submitted events), work, turn, more)
              (work_timed_out batch_size (items ++ item ∷ []) events w o.1)
      ]

  -- Among the answers of a batch is that of each item, if no item before it has its sender.
  pub reply_to-flush :
      (before after : List Item) (item : Item) (w : World)
      → All (λ x. tx x ≢ tx item) before
      → reply_to (tx item) (flush tx call (before ++ item ∷ after) w).0
        ≡ some (call item (flush tx call before w).1).0
  unfolding reply_to flush
  reply_to-flush [] after item w d = rw (==_refl (tx item))
  reply_to-flush (x ∷ before) after item w d =
      rw (ne→== (tx x) (tx item) d.0) (reply_to-flush before after item (call x w).1 d.1)

  -- Fewer items than a batch wait.
  pub work_gathers :
      (batch_size : ℕ) (items more : List Item) (events : List (Event Item)) (w : World)
      → length (items ++ more) < batch_size
      → work tx call batch_size items (map received more ++ events) w
        ≡ work tx call batch_size (items ++ more) events w
  unfolding work turn
  work_gathers batch_size items [] events w h = rw (append-nil items)
  work_gathers batch_size items (item ∷ more) events w h =
      rw
        (
          work,
          turn,
          lt→leb batch_size (length (items ++ item ∷ [])) (
              omega (arith, length-append items (item ∷ []), length-append items (item ∷ more), h)),
          ← append_assoc items (item ∷ []) more,
        )
        (work_gathers batch_size (items ++ item ∷ []) more events w
          (rw (append_assoc items (item ∷ []) more) h))
