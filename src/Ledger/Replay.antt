-- ===== src/Ledger/Replay.antt =====
-- A posting is idempotent on its key (`post` and `_same_or_conflict` of app/services/ledger.py).
use text.Mathlib.TextPositions.{eq_refl}
use inpockets.Base.{
  ℕ, ◌<◌, ◌≡◌, ◌≢◌, refl, ◌∙◌, Bool, true, List, [], ◌∷◌, ◌++◌, arith, Option, none, some, ok, err,
  All, find, ==_refl, inl, inr, ◌==◌,
}
use inpockets.Ledger.{Line, conflict, Payload, payload}
use inpockets.Ledger.Lines.{IsBalanced, validate_lines_complete}
use inpockets.Ledger.Tables.{
  Transaction, Books, IdempotencyKey, disbursement_paid, disbursement_reversed, repayment_received,
  repayment_reversed, other, key_eq, get_by_key, get_by_id, insert_header, insert_entries,
}
use inpockets.Ledger.Posting.{Posting, header, same_or_conflict, post}
use inpockets.Ledger.Inversion.{Inserted, post_inversion}

key_eq_refl : (k : IdempotencyKey) → key_eq k k ≡ true
key_eq_refl (disbursement_paid i) = ==_refl i
key_eq_refl (disbursement_reversed i) = ==_refl i
key_eq_refl (repayment_received i) = ==_refl i
key_eq_refl (repayment_reversed i) = ==_refl i
key_eq_refl (other s) = eq_refl s

-- Every transaction's id is below the next one.
abbrev pub IsFresh : Books → Type 0
IsFresh b = All (λ t. t.id < b.next_id) b.transactions

-- A member appended behind members that fail a test is the first to pass it.
find-append_last {ℓ} :
    {A : Type ℓ} (q : A → Bool) (xs : List A) (x : A)
    → find q xs ≡ none
    → q x ≡ true
    → find q (xs ++ x ∷ []) ≡ some x
find-append_last q [] x h e = ground arith
find-append_last q (y ∷ ys) x h e = ground (arith, find-append_last q ys x)

find_id-none :
    (n : ℕ) (ts : List Transaction) → All (λ t. t.id < n) ts → find (λ t. t.id == n) ts ≡ none
find_id-none n [] h = refl
find_id-none n (t ∷ ts) h = ground (arith, find_id-none n ts h.1)

-- What an insertion that made a header did.
pub insert_header-some :
    (row : ℕ → Transaction) (b : Books) (id : ℕ) (b' : Books)
    → insert_header row b ≡ ok (some id, b')
    → (id ≡ b.next_id)
      × (b'.transactions ≡ b.transactions ++ row b.next_id ∷ [])
      × (get_by_key (row b.next_id).idempotency_key b ≡ none)
unfolding insert_header
insert_header-some row b id b' h = ground arith

-- What the books hold of a row that was appended to the transactions.
appended_found :
    (b : Books) (ts : List Transaction) (row : Transaction)
    → b.transactions ≡ ts ++ row ∷ []
    → find (λ t. t.id == row.id) ts ≡ none
    → find (λ t. key_eq t.idempotency_key row.idempotency_key) ts ≡ none
    → (get_by_id row.id b ≡ some row) × (get_by_key row.idempotency_key b ≡ some row)
unfolding get_by_id get_by_key
appended_found b ts row e new_id new_key = (
  rw e (find-append_last _ ts row new_id (==_refl row.id)),
  rw e (find-append_last _ ts row new_key (key_eq_refl row.idempotency_key)),
)

Inserted-recorded :
    (others : Books → Books) (p : Posting) (digest : ℕ) (clean : List Line) (b : Books)
    (t : Option Transaction) (b' : Books)
    → IsFresh (others b)
    → Inserted others p digest clean b t b'
    → let row = header p digest clean (others b).next_id in
      (t ≡ some row) × (get_by_key p.idempotency_key b' ≡ some row)
unfolding insert_entries header get_by_key
Inserted-recorded others p digest clean b t b' fresh i =
    let row = header p digest clean (others b).next_id in
    let (id, rows, new_key) =
      insert_header-some (header p digest clean) (others b) i.id i.held i.header_in in
    let rows' : b'.transactions ≡ (others b).transactions ++ row ∷ [] = rw i.books rows in
    let found =
      appended_found b' (others b).transactions row rows'
        (find_id-none (others b).next_id (others b).transactions fresh) new_key in
    (i.row ∙ rw id found.0, found.1)

same_or_conflict-eq-ok :
    (o : Option Transaction) (digest : ℕ) (w : Transaction)
    → same_or_conflict o digest ≡ ok w
    → (o ≡ some w) × (w.payload_hash ≡ digest)
unfolding same_or_conflict
same_or_conflict-eq-ok o digest w h = ground arith

-- After a posting the books hold its key, with its fingerprint, in the row that was returned.
pub post-recorded :
    (sha256 : Payload → ℕ) (others : Books → Books) (p : Posting) (b : Books)
    (t : Option Transaction) (b' : Books)
    → IsFresh (others b)
    → post sha256 others p b ≡ ok (t, b')
    → (row : Transaction) × (t ≡ some row)
      × (get_by_key p.idempotency_key b' ≡ some row)
      × (row.payload_hash ≡ sha256 (payload p.kind p.loan_offer_id p.lines))
unfolding header
post-recorded sha256 others p b t b' fresh h =
    let digest : ℕ = sha256 (payload p.kind p.loan_offer_id p.lines) in
    let (balanced, way) = post_inversion sha256 others p b t b' h in
    elim way [
      | inl i ↦
          (let (row, found) = Inserted-recorded others p digest p.lines b t b' fresh i in
            (header p digest p.lines (others b).next_id, row, found, refl))
      | inr (inl l) ↦
          (let (found, hash) = same_or_conflict-eq-ok _ _ _ l.same in
            (l.winner, l.row, found, hash))
      | inr (inr r) ↦ (r.existing, r.row, rw r.unchanged r.found, r.same)
    ]

-- A posting that succeeded can be made again on the books that it left: it returns the same
-- transaction and changes nothing. Balanced lines under the same key with another fingerprint are
-- refused there as a conflict. The ids of the books were new ones, as the header was inserted.
pub post-replay :
    (sha256 : Payload → ℕ) (others others' : Books → Books) (p : Posting) (b : Books)
    (t : Option Transaction) (b' : Books)
    → IsFresh (others b)
    → post sha256 others p b ≡ ok (t, b')
    → (post sha256 others' p b' ≡ ok (t, b'))
      × ((q : Posting)
          → q.idempotency_key ≡ p.idempotency_key
          → IsBalanced q.lines
          → sha256 (payload q.kind q.loan_offer_id q.lines)
            ≢ sha256 (payload p.kind p.loan_offer_id p.lines)
          → post sha256 others' q b' ≡ err conflict)
unfolding post same_or_conflict
post-replay sha256 others others' p b t b' fresh h =
    let (row, returned, found, hash) = post-recorded sha256 others p b t b' fresh h in
    let (balanced, _) = post_inversion sha256 others p b t b' h in
    let valid = validate_lines_complete p.lines balanced in
    (
      ground (arith, returned, found, hash, valid),
      λ q same_key q_balanced differ.
          let q_valid = validate_lines_complete q.lines q_balanced in
          let q_found : get_by_key q.idempotency_key b' ≡ some row = rw same_key found in
          ground (arith, q_valid, q_found, hash, differ),
    )
