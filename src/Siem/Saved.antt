-- ===== src/Siem/Saved.antt =====
-- siem_clickhouse_processor/src/main.rs: where a batch is after `write_batch`.
use rust_samples.Prelude.{
  ℕ, zero, suc, ◌*◌, ◌≤◌, ◌≡◌, refl, ap, sym, ◌∙◌, inl, inr, List, [], ◌∷◌, ◌++◌, map, append_assoc,
  append-nil, arith, some, Bool, true, false, if◌then◌else◌, length, Bool-cases,
}
use rust_samples.Prelude.Text.{split, split-append, Lacks}
use rust_samples.Siem.{SiemEvent, Attempt, Store}
use rust_samples.Siem.Writer.{write_lines, dump_to_wal, all_written, write_batch}

-- The lines of some events.
abbrev pub wal_lines : (SiemEvent → List ℕ) → List SiemEvent → List ℕ
wal_lines json [] = []
wal_lines json (event ∷ events) = json event ++ 10 ∷ wal_lines json events

-- The file opens, events are `json` as text, and the disk takes a batch.
pub record DiskWorks (attempt : Attempt) (json : SiemEvent → List ℕ) (batch : List SiemEvent)
    : Type 0 where
  pub opens : attempt.wal_opens ≡ true
  pub serializes : (event : SiemEvent) → attempt.to_string event ≡ some (json event)
  pub room : 2 * length batch ≤ attempt.disk_writes

write_lines_lem :
    (attempt : Attempt) (json : SiemEvent → List ℕ) (writes : ℕ) (batch : List SiemEvent)
    (wal : List ℕ)
    → ((event : SiemEvent) → attempt.to_string event ≡ some (json event))
    → 2 * length batch ≤ writes
    → write_lines attempt writes batch wal ≡ (wal ++ wal_lines json batch, true)
unfolding write_lines
write_lines_lem attempt json writes [] wal s room = ap (λ w. (w, true)) (sym (append-nil wal))
write_lines_lem attempt json zero (event ∷ batch) wal s room = absurd (omega arith)
write_lines_lem attempt json (suc zero) (event ∷ batch) wal s room = absurd (omega arith)
write_lines_lem attempt json (suc (suc writes)) (event ∷ batch) wal s room =
    rw (s event, write_lines)
      (write_lines_lem attempt json writes batch (wal ++ (json event ++ 10 ∷ [])) s (omega arith)
        ∙ ap (λ w. (w, true))
            (append_assoc wal (json event ++ 10 ∷ []) (wal_lines json batch)
              ∙ ap (λ z. wal ++ z) (append_assoc (json event) (10 ∷ []) (wal_lines json batch))))

-- The batch that could not be inserted.
abbrev pub logged : (SiemEvent → List ℕ) → List SiemEvent → Store → Store
logged json batch store = record store { wal = store.wal ++ wal_lines json batch }

dump_to_wal_lem :
    (attempt : Attempt) (json : SiemEvent → List ℕ) (batch : List SiemEvent) (store : Store)
    → DiskWorks attempt json batch
    → (dump_to_wal attempt batch store).0 ≡ logged json batch store
unfolding dump_to_wal
dump_to_wal_lem attempt json batch store disk =
    rw
      (
        disk.opens,
        write_lines_lem attempt json attempt.disk_writes batch store.wal disk.serializes disk.room,
        dump_to_wal,
      )
      refl

-- ClickHouse takes the whole batch.
abbrev pub inserts : Attempt → List SiemEvent → Bool
inserts attempt batch =
    if attempt.insert_begins
    then (if all_written attempt batch then attempt.insert_ends else false)
    else false

-- With a disk that works, a batch is appended to the table when ClickHouse takes all of it, and
-- otherwise to the log, as a whole and in order; the other one of the two stays as it was.
pub write_batch_lem :
    (attempt : Attempt) (json : SiemEvent → List ℕ) (batch : List SiemEvent) (store : Store)
    → DiskWorks attempt json batch
    → write_batch attempt batch store ≡ (
        if inserts attempt batch
        then record store { table = store.table ++ batch }
        else logged json batch store)
unfolding write_batch
write_batch_lem attempt json [] store disk = elim (Bool-cases (inserts attempt [])) [
  | inl taken ↦ rw taken (ap (λ t. record store { table = t }) (sym (append-nil store.table)))
  | inr refused ↦ rw refused (ap (λ w. record store { wal = w }) (sym (append-nil store.wal)))
]
write_batch_lem attempt json (event ∷ batch) store disk =
    let dumped = dump_to_wal_lem attempt json (event ∷ batch) store disk in
    elim (Bool-cases attempt.insert_begins) [
      | inr refused ↦ rw refused dumped
      | inl begun ↦ elim (Bool-cases (all_written attempt (event ∷ batch))) [
        | inr invalid ↦ rw (begun, invalid) dumped
        | inl written ↦ elim (Bool-cases attempt.insert_ends) [
          | inr broken ↦ rw (begun, written, broken) dumped
          | inl committed ↦ rw (begun, written, committed) refl
        ]
      ]
    ]

wal_lines-append :
    (json : SiemEvent → List ℕ) (xs ys : List SiemEvent)
    → wal_lines json (xs ++ ys) ≡ wal_lines json xs ++ wal_lines json ys
wal_lines-append json [] ys = refl
wal_lines-append json (x ∷ xs) ys =
    ap (λ z. json x ++ 10 ∷ z) (wal_lines-append json xs ys)
    ∙ sym (append_assoc (json x) (10 ∷ wal_lines json xs) (wal_lines json ys))

split-wal_lines :
    (json : SiemEvent → List ℕ) (events : List SiemEvent)
    → ((event : SiemEvent) → Lacks 10 (json event))
    → split 10 (wal_lines json events) ≡ map json events ++ [] ∷ []
unfolding split
split-wal_lines json [] one_line = refl
split-wal_lines json (event ∷ events) one_line =
    split-append 10 (json event) (wal_lines json events) (one_line event)
    ∙ ap (λ z. json event ∷ z) (split-wal_lines json events one_line)

-- The log is read back: when it holds the lines of some events and a batch fails in ClickHouse,
-- its lines are then those of the events and of the batch, and an empty one after the last line
-- feed; JSON text without line feeds is assumed.
pub failed_batch_is_read_back :
    (attempt : Attempt) (json : SiemEvent → List ℕ) (earlier batch : List SiemEvent) (store : Store)
    → DiskWorks attempt json batch
    → ((event : SiemEvent) → Lacks 10 (json event))
    → store.wal ≡ wal_lines json earlier
    → inserts attempt batch ≡ false
    → split 10 (write_batch attempt batch store).wal ≡ map json (earlier ++ batch) ++ [] ∷ []
failed_batch_is_read_back attempt json earlier batch store disk one_line held failed =
    let log : (write_batch attempt batch store).wal ≡ wal_lines json (earlier ++ batch) =
      ap (λ s. s.wal) (write_batch_lem attempt json batch store disk)
      ∙ rw (failed, held) (sym (wal_lines-append json earlier batch)) in
    ap (split 10) log ∙ split-wal_lines json (earlier ++ batch) one_line
