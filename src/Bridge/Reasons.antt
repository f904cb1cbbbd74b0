-- ===== src/Bridge/Reasons.antt =====
-- src/aiopquic/_binding/c/callback.h, the close reasons lent to picoquic_close_ex: a list of blocks, each
-- with its address, since picoquic keeps the pointer to the text until the connection's final callback.
pub mod Apart
pub mod Lent
use aiopquic.Base.{ℕ, Option, none, some, List, [], ◌∷◌, ◌++◌, take, ◌==◌, if◌then◌else◌}

-- `aiopquic_close_reason_t`, at its address; `text` with its NUL.
pub record Reason : Type 0 where
  pub addr : ℕ
  pub cnx : ℕ
  pub text : List ℕ

-- The loop of hold: the reason that the connection has.
unfoldable pub reason_of : List Reason → ℕ → Option ℕ
reason_of [] cnx = none
reason_of (r ∷ reasons) cnx =
    let more = reason_of reasons cnx in if r.cnx == cnx then some r.addr else more

abbrev pub new_reason : ℕ → ℕ → List ℕ → ℕ → Reason
new_reason addr cnx bytes len = record { addr = addr; cnx = cnx; text = take len bytes ++ 0 ∷ [] }

abbrev pub lend : Option ℕ → Option ℕ → List Reason → ℕ → List ℕ → ℕ → Option ℕ × List Reason
lend (some held) block reasons cnx bytes len = (some held, reasons)
lend none none reasons cnx bytes len = (none, reasons)
lend none (some addr) reasons cnx bytes len = (some addr, new_reason addr cnx bytes len ∷ reasons)

-- The pointer to the text, as the address of its block, and the reasons. `block` is malloc's answer, no
-- bytes is NULL.
unfoldable pub hold : Option ℕ → List Reason → ℕ → Option (List ℕ) → ℕ → Option ℕ × List Reason
hold block reasons cnx none len = (none, reasons)
hold block reasons cnx (some bytes) len =
    if len == 0 then (none, reasons) else lend (reason_of reasons cnx) block reasons cnx bytes len

unfoldable pub drop_reason : List Reason → ℕ → List Reason
drop_reason [] cnx = []
drop_reason (r ∷ reasons) cnx =
    let more = drop_reason reasons cnx in if r.cnx == cnx then reasons else r ∷ more

-- The text at an address, none where no block is.
unfoldable pub text_at : List Reason → ℕ → Option (List ℕ)
text_at [] addr = none
text_at (r ∷ reasons) addr =
    let more = text_at reasons addr in if r.addr == addr then some r.text else more
