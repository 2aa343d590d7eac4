-- ===== src/Egress/Bodies/Limit.antt =====
-- internal/adapters/egress/proxy.go, limitedBody: what any reads of a limited body give.
use vibewarden.Prelude.{ℕ, ◌+◌, ◌≡◌, false, List, [], ◌∷◌, ◌++◌, length, take, drop}
use vibewarden.Egress.Bodies.{LimitedBody, read_limited}

abbrev total : List ℕ → ℕ
total [] = 0
total (n ∷ ns) = n + total ns

-- Reads into so many bytes each, one after another: the body that they leave, and what they give.
abbrev pub reads : List ℕ → LimitedBody → LimitedBody × List ℕ
reads [] lb = (lb, [])
reads (n ∷ ns) lb =
    let (lb', got, e) = read_limited n lb in let (end, more) = reads ns lb' in (end, got ++ more)

record Reads (ns : List ℕ) (lb end : LimitedBody) (got : List ℕ) : Type 0 where
  pub bytes : got ≡ take (total ns) lb.r.bytes
  pub left : end.r.bytes ≡ drop (total ns) lb.r.bytes
  pub count : end.read_so_far ≡ lb.read_so_far + length got
  pub same_limit : end.limit ≡ lb.limit
  pub unclosed : end.r.closed ≡ false
