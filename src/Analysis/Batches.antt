-- ===== src/Analysis/Batches.antt =====
-- runtime/src/argus/workers/vlm_analyzer.py, the task that reads the stream: it queues one analysis for
-- each entry that the consumer group is given, at most ten at a time. The group is Redis's, so it is an
-- interface: what a read of new entries (`>`) returns, and what it leaves to be read.
use argus_services.Prelude.{
  take, drop, length-take, take-add, take-enough, ℕ, zero, suc, ◌+◌, ◌*◌, ◌≤◌, ◌≡◌, refl, sym, ap,
  ap₂, ◌∙◌, String, List, [], ◌∷◌, ◌++◌, append-nil, append_assoc, map, map-append, arith, length,
  length-append, length-map,
}
use argus_services.Domain.Json.{Fields}

pub record Entry : Type 0 where
  pub message_id : String
  pub fields : Fields

-- The entries of all the streams that a read returns.
abbrev pub entries_of : List (String × List Entry) → List Entry
entries_of [] = []
entries_of ((_, entries) ∷ rest) = entries ++ entries_of rest

-- `xreadgroup(group, consumer, {INGEST_STREAM: ">"}, count=n)`
pub record ConsumerGroup : Type 1 where
  pub State : Type 0
  pub undelivered : State → List Entry
  pub xreadgroup : ℕ → State → List (String × List Entry) × State
  pub delivers : (n : ℕ) (s : State) → entries_of (xreadgroup n s).0 ≡ take n (undelivered s)
  pub leaves : (n : ℕ) (s : State) → undelivered (xreadgroup n s).1 ≡ drop n (undelivered s)

-- `analyze_ingest_message.delay(message_id, dict(fields))`
pub record AnalysisTask : Type 0 where
  pub message_id : String
  pub fields : Fields

abbrev pub task_for : Entry → AnalysisTask
task_for e = record { message_id = e.message_id; fields = e.fields }

pub record Reading (G : ConsumerGroup) : Type 0 where
  pub group : G.State
  pub queue : List AnalysisTask

-- The inner loop and the outer one: the count of the tasks, and the queue.
unfoldable pub queue_entries : List Entry → ℕ × List AnalysisTask → ℕ × List AnalysisTask
queue_entries [] t = t
queue_entries (e ∷ entries) (processed, queue) =
    queue_entries entries (processed + 1, queue ++ task_for e ∷ [])

unfoldable pub queue_streams :
    List (String × List Entry) → ℕ × List AnalysisTask → ℕ × List AnalysisTask
queue_streams [] t = t
queue_streams ((_, entries) ∷ rest) t = queue_streams rest (queue_entries entries t)

module _ (G : ConsumerGroup) where
  -- `_process_ingest_stream_batch`
  unfoldable pub process_batch : Reading G → ℕ × Reading G
  process_batch w =
      let (messages, after) = G.xreadgroup 10 w.group in
      let (processed, queue) = queue_streams messages (0, w.queue) in
      (processed, record { group = after; queue = queue })

  -- `n` runs of the task, one after the other.
  abbrev pub process_batches : ℕ → Reading G → Reading G
  process_batches zero w = w
  process_batches (suc n) w = process_batches n (process_batch w).1

queue_entries-eq :
    (entries : List Entry) (processed : ℕ) (queue : List AnalysisTask)
    → queue_entries entries (processed, queue)
      ≡ (processed + length entries, queue ++ map task_for entries)
unfolding queue_entries
queue_entries-eq [] processed queue = ap₂ (λ a b. (a, b)) (omega arith) (sym (append-nil queue))
queue_entries-eq (e ∷ entries) processed queue =
    queue_entries-eq entries (processed + 1) (queue ++ task_for e ∷ [])
    ∙ ap₂ (λ a b. (a, b)) (omega arith)
        (append_assoc queue (task_for e ∷ []) (map task_for entries))

queue_entries-append :
    (xs ys : List Entry) (t : ℕ × List AnalysisTask)
    → queue_entries ys (queue_entries xs t) ≡ queue_entries (xs ++ ys) t
unfolding queue_entries
queue_entries-append [] ys t = refl
queue_entries-append (x ∷ xs) ys (processed, queue) =
    queue_entries-append xs ys (processed + 1, queue ++ task_for x ∷ [])

queue_streams-eq :
    (messages : List (String × List Entry)) (t : ℕ × List AnalysisTask)
    → queue_streams messages t ≡ queue_entries (entries_of messages) t
unfolding queue_streams queue_entries
queue_streams-eq [] t = refl
queue_streams-eq ((s, entries) ∷ rest) t =
    queue_streams-eq rest (queue_entries entries t)
    ∙ queue_entries-append entries (entries_of rest) t

module _ (G : ConsumerGroup) where
  process_batch-eq :
      (w : Reading G)
      → ((process_batch G w).0 ≡ length (take 10 (G.undelivered w.group)))
        × ((process_batch G w).1.queue ≡ w.queue ++ map task_for (take 10 (G.undelivered w.group)))
        × (G.undelivered (process_batch G w).1.group ≡ drop 10 (G.undelivered w.group))
  unfolding process_batch
  process_batch-eq w =
      let all =
        queue_streams-eq (G.xreadgroup 10 w.group).0 (0, w.queue)
        ∙ queue_entries-eq (entries_of (G.xreadgroup 10 w.group).0) 0 w.queue in
      (
        ap (λ (t : ℕ × List AnalysisTask). t.0) all
            ∙ ap (λ xs. 0 + length xs) (G.delivers 10 w.group)
            ∙ omega arith,
        ap (λ (t : ℕ × List AnalysisTask). t.1) all
            ∙ ap (λ xs. w.queue ++ map task_for xs) (G.delivers 10 w.group),
        G.leaves 10 w.group,
      )

  -- A run of the task queues at most ten analyses, and returns how many it queued.
  process_batch_bounded :
      (w : Reading G)
      → ((process_batch G w).0 ≤ 10)
        × (length (process_batch G w).1.queue ≡ length w.queue + (process_batch G w).0)
  process_batch_bounded w =
      let (processed, queue, _) = process_batch-eq w in
      (
        rw processed (length-take 10 (G.undelivered w.group)),
        rw (queue, processed)
            (length-append w.queue (map task_for (take 10 (G.undelivered w.group)))
              ∙ ap (λ n. length w.queue + n)
                  (length-map task_for (take 10 (G.undelivered w.group)))),
      )

  process_batches-take :
      (n : ℕ) (w : Reading G)
      → (process_batches G n w).queue
        ≡ w.queue ++ map task_for (take (10 * n) (G.undelivered w.group))
  process_batches-take zero w = sym (append-nil w.queue)
  process_batches-take (suc n) w =
      let (_, queue, left) = process_batch-eq w in
      let xs = G.undelivered w.group in
      process_batches-take n (process_batch G w).1
      ∙ ap₂ (λ q l. q ++ map task_for (take (10 * n) l)) queue left
      ∙ append_assoc w.queue (map task_for (take 10 xs)) (map task_for (take (10 * n) (drop 10 xs)))
      ∙ ap (λ l. w.queue ++ l)
          (sym (map-append task_for (take 10 xs) (take (10 * n) (drop 10 xs)))
            ∙ ap (map task_for) (take-add 10 (10 * n) xs ∙ ap (λ i. take i xs) (omega arith)))

  -- After enough runs of the task for the entries that wait, ten for each run, every entry of the stream has
  -- its analysis queued, once and in the order of the stream, after what was queued before.
  pub process_batches_deliver :
      (n : ℕ) (w : Reading G)
      → length (G.undelivered w.group) ≤ 10 * n
      → (process_batches G n w).queue ≡ w.queue ++ map task_for (G.undelivered w.group)
  process_batches_deliver n w h =
      process_batches-take n w
      ∙ ap (λ xs. w.queue ++ map task_for xs) (take-enough (10 * n) (G.undelivered w.group) h)
