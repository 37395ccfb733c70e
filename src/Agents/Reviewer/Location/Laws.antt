-- ===== src/Agents/Reviewer/Location/Laws.antt =====
-- What `_parse_location` returns, and when it raises.
use Prim.Native.String.{String}
use analysis_engine_service.Prelude.{◌≤◌, ◌≡◌, ◌≢◌, refl, Option, none, some, eq_iff, arith}
use analysis_engine_service.Prelude.Text.{Unicode, strip, rpartition}
use analysis_engine_service.Prelude.Raises.{ok}
use analysis_engine_service.Agents.Reviewer.Location.{Location, parse_span, parse_location}

-- The location names a file and a range of lines that begins at 1 or later and does not end before.
pub record IsProper (l : Location) : Type 0 where
  pub has_path : l.path ≢ ""
  pub from_one : 1 ≤ l.start
  pub in_order : l.start ≤ l.end

module _ (U : Unicode) where
  open U use {is_digit, decimal}

  parse_span-IsProper :
      (path span : String) (l : Location)
      → path ≢ ""
      → parse_span U path span ≡ ok (some l)
      → IsProper l
  unfolding parse_span
  parse_span-IsProper path span l named h = record {
    has_path = ground arith;
    from_one = ground arith;
    in_order = ground arith;
  }

  -- A location that is read names a file and a proper range of lines.
  pub parse_location-IsProper :
      (ref : String) (l : Location) → parse_location U ref ≡ ok (some l) → IsProper l
  unfolding parse_location
  parse_location-IsProper ref l h = at (rpartition 58 (strip U ref)).0 refl
    where
      span : String
      span = (rpartition 58 (strip U ref)).1

      at : (o : Option String) → (rpartition 58 (strip U ref)).0 ≡ o → IsProper l
      at none e = ground (arith)
      at (some p) e =
          parse_span-IsProper p span l (ground (arith, eq_iff p "")) (ground (arith, eq_iff p ""))
