-- ===== src/Tools/Paging.antt =====
-- The pages that a search asks for.
use protonmail_mcp.Common.{ℕ, ◌≤◌, Bool, true, false, ◌≡◌, refl, not, arith, ltb, if◌then◌else◌}
use protonmail_mcp.Common.Strconv.{ℤ, pos, negsuc}
use protonmail_mcp.Common.Ints.{int_ltb}
use protonmail_mcp.Exec.Rules.{Preserves}
use protonmail_mcp.Session.State.{Backend, State}
use protonmail_mcp.Tools.Api.{MessageFilter}
use protonmail_mcp.Tools.Handler.{Deps, tool_client}
use protonmail_mcp.Tools.Messages.{SearchMessagesIn, page_of, page_size, search_messages}
use protonmail_mcp.Session.Access.{client}
use protonmail_mcp.Tools.Gates.Laws.{handling, Preserves-tool_client}

page_of-pos : (page : ℤ) → (n : ℕ) × (page_of page ≡ pos n)
unfolding page_of int_ltb
page_of-pos (pos n) = let natural : ltb n 0 ≡ false = ground arith in (n, rw natural refl)
page_of-pos (negsuc n) = (0, refl)

-- A number that is a size of a page.
record IsSize (z : ℤ) : Type 0 where
  pub n : ℕ
  pub eq : z ≡ pos n
  pub low : 1 ≤ n
  pub high : n ≤ 150

page_size-IsSize : (limit : ℤ) → IsSize (page_size limit)
unfolding page_size int_ltb
page_size-IsSize (negsuc m) = record { n = 50; eq = refl; low = omega arith; high = omega arith }
page_size-IsSize (pos m) = by_tests (ltb 0 m) (ltb 150 m) refl refl
  where
    by_tests :
        (s t : Bool)
        → ltb 0 m ≡ s
        → ltb 150 m ≡ t
        → IsSize (if not s then pos 50 else if t then pos 150 else pos m)
    by_tests false t p q = record { n = 50; eq = refl; low = omega arith; high = omega arith }
    by_tests true true p q = record { n = 150; eq = refl; low = omega arith; high = omega arith }
    by_tests true false p q = record {
      n = m;
      eq = refl;
      low = ground (arith, p);
      high = ground (arith, q);
    }

-- What a page is asked for with: a page from 0 on, and a size from 1 to 150.
pub record PageLaw {b : Backend} (d : Deps b) (P : State b → Type 0) : Type 0 where
  pub at :
      (c : b.Client) (page size : ℕ) (f : MessageFilter)
      → 1 ≤ size
      → size ≤ 150
      → Preserves P (d.api.get_message_page c (pos page) (pos size) f)

module _ {b : Backend} (d : Deps b) (P : State b → Type 0) (law : PageLaw d P) where
  page-keeps :
      (c : b.Client) (page limit : ℤ) (f : MessageFilter)
      → Preserves P (d.api.get_message_page c (page_of page) (page_size limit) f)
  page-keeps c page limit f =
      let (p, at) = page_of-pos page in
      let size = page_size-IsSize limit in rw (at, size.eq) (law.at c p size.n f size.low size.high)

  module _ (k : Preserves P (client b)) where
    client-keeps : Preserves P (tool_client b)
    client-keeps = Preserves-tool_client k

    search-keeps : (input : SearchMessagesIn) → Preserves P (search_messages d input)
    unfolding search_messages
    search-keeps input = search (handling, client-keeps, page-keeps) depth 9

-- Whatever page and limit are given, negative ones included, a search asks for one page, from 0 on,
-- with a size from 1 to 150. (It keeps what the client and every such page keep.)
pub search_messages-bounds :
    {b : Backend} (d : Deps b) (P : State b → Type 0) (input : SearchMessagesIn)
    → PageLaw d P
    → Preserves P (client b)
    → Preserves P (search_messages d input)
search_messages-bounds d P input law k = search-keeps d P law k input
