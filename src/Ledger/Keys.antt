-- ===== src/Ledger/Keys.antt =====
-- Which keys the books hold after a posting (`post` and `reverse` of app/services/ledger.py): its own,
-- and those that they held before.
use inpockets.Base.{
  ℕ, suc, ◌<◌, ◌≡◌, refl, ◌∙◌, Bool, true, false, List, [], ◌∷◌, ◌++◌, arith, Option, none, some,
  ok, All-append, All-mono, find, String, inl, inr,
}
use inpockets.Ledger.{Line, Payload}
use inpockets.Ledger.Tables.{
  Transaction, Books, IdempotencyKey, key_eq, get_by_key, insert_header, insert_entries,
}
use inpockets.Ledger.Posting.{Posting, header, post, reverse, reversal_posting}
use inpockets.Ledger.Trial.{insert_header-none}
use inpockets.Ledger.Inversion.{Inserted, post_inversion, reverse_inversion}
use inpockets.Ledger.Replay.{IsFresh, insert_header-some, post-recorded}

-- The books hold a transaction under the key.
unfoldable pub has_key : IdempotencyKey → Books → Bool
has_key key b = elim (get_by_key key b) [ none ↦ false | some _ ↦ true ]

-- What other sessions do in the meantime keeps ids new, and leaves a key alone.
abbrev pub IsQuiet : IdempotencyKey → (Books → Books) → Type 0
IsQuiet key others =
    (b : Books) → IsFresh b → IsFresh (others b) × (has_key key (others b) ≡ has_key key b)

insert_header-next_id :
    (row : ℕ → Transaction) (b : Books) (id : ℕ) (b' : Books)
    → insert_header row b ≡ ok (some id, b')
    → b'.next_id ≡ suc b.next_id
unfolding insert_header
insert_header-next_id row b id b' h = ground arith

find-append_other {ℓ} :
    {A : Type ℓ} (q : A → Bool) (xs : List A) (x : A)
    → q x ≡ false
    → find q (xs ++ x ∷ []) ≡ find q xs
find-append_other q [] x h = ground arith
find-append_other q (y ∷ ys) x h = ground (arith, find-append_other q ys x h)

found_has_key :
    (key : IdempotencyKey) (b b' : Books)
    → get_by_key key b' ≡ get_by_key key b
    → has_key key b' ≡ has_key key b
unfolding has_key
found_has_key key b b' e = rw (has_key, e) refl

-- Books with a row appended under a new id.
appended-IsFresh :
    (row : Transaction) (b b' : Books)
    → IsFresh b
    → row.id ≡ b.next_id
    → b'.transactions ≡ b.transactions ++ row ∷ []
    → b'.next_id ≡ suc b.next_id
    → IsFresh b'
appended-IsFresh row b b' fresh id rows next =
    rw (rows, next)
      (All-append (λ t. t.id < suc b.next_id) b.transactions (row ∷ [])
        (All-mono (λ t. t.id < b.next_id) (λ t. t.id < suc b.next_id) b.transactions
          (λ t h. omega (arith, h)) fresh)
        (omega (arith, id), tt))

appended-has_key :
    (key : IdempotencyKey) (row : Transaction) (b b' : Books)
    → key_eq row.idempotency_key key ≡ false
    → b'.transactions ≡ b.transactions ++ row ∷ []
    → has_key key b' ≡ has_key key b
unfolding get_by_key
appended-has_key key row b b' other rows =
    found_has_key key b b'
      (rw rows (find-append_other (λ t. key_eq t.idempotency_key key) b.transactions row other))

module _ (others : Books → Books) (key : IdempotencyKey) (quiet : IsQuiet key others) where
  Inserted-has_key :
      (p : Posting) (digest : ℕ) (clean : List Line) (b : Books) (t : Option Transaction)
      (b' : Books)
      → IsFresh b
      → Inserted others p digest clean b t b'
      → IsFresh b' × (key_eq p.idempotency_key key ≡ false → has_key key b' ≡ has_key key b)
  unfolding insert_entries header
  Inserted-has_key p digest clean b t b' fresh i =
      let (_, rows, _) =
        insert_header-some (header p digest clean) (others b) i.id i.held i.header_in in
      let next = insert_header-next_id (header p digest clean) (others b) i.id i.held i.header_in in
      let (fresh', same) = quiet b fresh in
      let row = header p digest clean (others b).next_id in
      let rows' : b'.transactions ≡ (others b).transactions ++ row ∷ [] = rw i.books rows in
      (
        appended-IsFresh row (others b) b' fresh' refl rows' (rw i.books next),
        λ other. appended-has_key key row (others b) b' other rows' ∙ same,
      )

  -- A posting leaves another key alone.
  pub post-has_key :
      (sha256 : Payload → ℕ) (p : Posting) (b : Books) (t : Option Transaction) (b' : Books)
      → IsFresh b
      → post sha256 others p b ≡ ok (t, b')
      → IsFresh b' × (key_eq p.idempotency_key key ≡ false → has_key key b' ≡ has_key key b)
  post-has_key sha256 p b t b' fresh h =
      let (balanced, way) = post_inversion sha256 others p b t b' h in
      let (fresh', same) = quiet b fresh in
      elim way [
        | inl i ↦ Inserted-has_key p _ p.lines b t b' fresh i
        | inr (inl l) ↦
            rw (insert_header-none (header p _ p.lines) (others b) b' l.header_out)
              (fresh', λ other. same)
        | inr (inr r) ↦ rw r.unchanged (fresh, λ other. refl)
      ]

  -- After a posting the books hold its key.
  pub post-own_key :
      (sha256 : Payload → ℕ) (p : Posting) (b : Books) (t : Option Transaction) (b' : Books)
      → IsFresh b
      → p.idempotency_key ≡ key
      → post sha256 others p b ≡ ok (t, b')
      → has_key key b' ≡ true
  unfolding has_key
  post-own_key sha256 p b t b' fresh own h =
      let (row, _, found, _) = post-recorded sha256 others p b t b' (quiet b fresh).0 h in
      let found' : get_by_key key b' ≡ some row = rw (← own) found in ground (arith, found')

  -- A reversal leaves another key alone.
  pub reverse-has_key :
      (sha256 : Payload → ℕ) (id : ℕ) (own : IdempotencyKey) (source : String) (source_id : ℕ)
      (reason : String) (b : Books) (t : Option Transaction) (b' : Books)
      → IsFresh b
      → key_eq own key ≡ false
      → reverse sha256 others id own source source_id reason b ≡ ok (t, b')
      → IsFresh b' × (has_key key b' ≡ has_key key b)
  unfolding reversal_posting
  reverse-has_key sha256 id own source source_id reason b t b' fresh other h =
      let r = reverse_inversion sha256 others id own source source_id reason b t b' h in
      elim r.outcome [
        | inl (_, _, _, e) ↦ rw e (fresh, refl)
        | inr (_, posted) ↦
            (let (fresh', kept) = post-has_key sha256 _ b t b' fresh posted in (fresh', kept other))
      ]
