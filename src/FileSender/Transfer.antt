-- ===== src/FileSender/Transfer.antt =====
-- file_sender/src/main.rs: a client and a server together.
use rust_samples.Prelude.{
  ℕ, ◌≡◌, refl, ap, sym, subst, ◌∙◌, ◌⊎◌, inl, inr, List, [], ◌++◌, Option, none, some, some_inj,
  Bool, true, false, length, take, drop, take-append-drop, append-nil, Bool-cases, Option-cases,
  ◌&&◌, if◌then◌else◌,
}
use rust_samples.FileSender.{
  IoResult, ok, failed, moved, ClientSystem, ServerSystem, copy_result, run_client, run_server,
}

-- What was sent is the start of the file, and a client that reports success sent it all.
abbrev pub IsSent : List ℕ → IoResult → List ℕ → Type 0
IsSent content result bytes =
    ((rest : List ℕ) × (content ≡ bytes ++ rest))
    × ((result ≡ failed) ⊎ ((result ≡ ok (length content)) × (bytes ≡ content)))

copied-IsSent :
    (content : List ℕ) (fails : Option ℕ) (closes : Bool)
    → IsSent content (copy_result fails (length (moved fails content)) closes) (moved fails content)
copied-IsSent content (some k) closes =
    ((drop k content, sym (take-append-drop k content)), inl refl)
copied-IsSent content none true = (([], sym (append-nil content)), inr (refl, refl))
copied-IsSent content none false = (([], sym (append-nil content)), inl refl)

-- The client's part: a stream that has begun is that of a file.
run_client-IsSent :
    (client : ClientSystem) (bytes : List ℕ)
    → (run_client client).1 ≡ some bytes
    → (content : List ℕ) × (client.content ≡ some content)
      × IsSent content (run_client client).0 bytes
unfolding run_client
run_client-IsSent client bytes e = elim (Option-cases client.content) [
  | inl missing ↦ absurd (none≢some (rw (missing, run_client) at e))
  | inr (content, there) ↦ elim (Bool-cases client.opens) [
    | inr shut ↦ absurd (none≢some (rw (there, shut, run_client) at e))
    | inl opened ↦ elim (Bool-cases client.connects) [
      | inr alone ↦ absurd (none≢some (rw (there, opened, alone, run_client) at e))
      | inl reached ↦
          let sent : run_client client ≡ (
            copy_result client.copy_fails (length (moved client.copy_fails content))
                client.shuts_down,
            some (moved client.copy_fails content),
          ) =
            rw (there, run_client) (rw (opened, reached) refl) in
          let same : moved client.copy_fails content ≡ bytes =
            some_inj.0 (sym (ap (λ p. p.1) sent) ∙ e) in
          (
            content,
            there,
            subst (λ b. IsSent content (run_client client).0 b) same
                (subst (λ r. IsSent content r (moved client.copy_fails content))
                  (sym (ap (λ p. p.0) sent))
                  (copied-IsSent content client.copy_fails client.shuts_down)),
          )
    ]
  ]
]
  where
    none≢some : none ≡ some bytes → ⊥
    none≢some e = cc

abbrev pub is_none : Option ℕ → Bool
is_none none = true
is_none (some k) = false

-- What a server makes of a stream: it reports all of the bytes and has saved them, or it fails,
-- and then the file is as before or holds a start of the stream.
abbrev pub IsReceived : List ℕ → Option (List ℕ) → IoResult × Option (List ℕ) → Type 0
IsReceived stream file (result, saved) =
    ((result ≡ ok (length stream)) × (saved ≡ some stream))
    ⊎ ((result ≡ failed)
        × ((saved ≡ file)
            ⊎ ((rest start : List ℕ) × (saved ≡ some start) × (stream ≡ start ++ rest))))

copied-IsReceived :
    (stream : List ℕ) (file : Option (List ℕ)) (fails : Option ℕ) (flushes : Bool)
    → IsReceived stream file
        (copy_result fails (length (moved fails stream)) flushes, some (moved fails stream))
copied-IsReceived stream file (some k) flushes =
    inr (refl, inr (drop k stream, take k stream, refl, sym (take-append-drop k stream)))
copied-IsReceived stream file none true = inl (refl, refl)
copied-IsReceived stream file none false =
    inr (refl, inr ([], stream, refl, sym (append-nil stream)))

run_server-IsReceived :
    (system : ServerSystem) (stream : List ℕ) (file : Option (List ℕ))
    → IsReceived stream file (run_server system stream file)
unfolding run_server
run_server-IsReceived system stream file = elim (Bool-cases system.binds) [
  | inr e ↦ rw (e, run_server) (inr (refl, inl refl))
  | inl bound ↦ elim (Bool-cases system.accepts) [
    | inr e ↦ rw (bound, e, run_server) (inr (refl, inl refl))
    | inl taken ↦ elim (Bool-cases system.creates) [
      | inr e ↦ rw (bound, taken, e, run_server) (inr (refl, inl refl))
      | inl made ↦
          rw (bound, taken, made, run_server)
            (copied-IsReceived stream file system.copy_fails system.flushes)
    ]
  ]
]

-- Each of the calls that a server makes succeeds.
abbrev pub all_calls : ServerSystem → Bool
all_calls system =
    system.binds
    && (system.accepts && (system.creates && (is_none system.copy_fails && system.flushes)))

copied-all_calls :
    (n : ℕ) (fails : Option ℕ) (flushes : Bool)
    → copy_result fails n flushes ≡ (if is_none fails && flushes then ok n else failed)
copied-all_calls n (some k) flushes = refl
copied-all_calls n none true = refl
copied-all_calls n none false = refl

moved-length :
    (stream : List ℕ) (fails : Option ℕ) (flushes : Bool)
    → (if is_none fails && flushes then ok (length (moved fails stream)) else failed)
      ≡ (if is_none fails && flushes then ok (length stream) else failed)
moved-length stream none flushes = refl
moved-length stream (some k) flushes = refl

run_server-all_calls :
    (system : ServerSystem) (stream : List ℕ) (file : Option (List ℕ))
    → (run_server system stream file).0 ≡ (if all_calls system then ok (length stream) else failed)
unfolding run_server
run_server-all_calls system stream file = elim (Bool-cases system.binds) [
  | inr e ↦ rw (e, run_server) refl
  | inl bound ↦ elim (Bool-cases system.accepts) [
    | inr e ↦ rw (bound, e, run_server) refl
    | inl taken ↦ elim (Bool-cases system.creates) [
      | inr e ↦ rw (bound, taken, e, run_server) refl
      | inl made ↦
          rw (bound, taken, made, run_server)
            (copied-all_calls (length (moved system.copy_fails stream)) system.copy_fails
                system.flushes
              ∙ moved-length stream system.copy_fails system.flushes)
    ]
  ]
]

-- Whatever the systems of a client and of its server answer: the bytes that the client puts into
-- the connection are a start of its file, and the whole file when it reports success, with its
-- length. Of these bytes the server reports and saves all, over any earlier file, exactly when each
-- of its own calls succeeds, whether or not the client has failed on the way; and otherwise it
-- fails, and leaves the earlier file or a start of the bytes.
pub run_server-run_client :
    (client : ClientSystem) (system : ServerSystem) (bytes : List ℕ) (file : Option (List ℕ))
    → (run_client client).1 ≡ some bytes
    → (content : List ℕ) × (client.content ≡ some content)
      × IsSent content (run_client client).0 bytes
      × IsReceived bytes file (run_server system bytes file)
      × ((run_server system bytes file).0
          ≡ (if all_calls system then ok (length bytes) else failed))
run_server-run_client client system bytes file e =
    let (content, there, sent) = run_client-IsSent client bytes e in
    (
      content,
      there,
      sent,
      run_server-IsReceived system bytes file,
      run_server-all_calls system bytes file,
    )
