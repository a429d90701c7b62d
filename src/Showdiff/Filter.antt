-- ===== src/Showdiff/Filter.antt =====
-- EventFilter of src/showdiff.cpp, and which events `print_events` prints.
use flocate.Prelude.{
  ◌≡◌, Bool, true, false, ◌||◌, List, [], ◌∷◌, arith, is_empty, if◌then◌else◌, not,
}
use flocate.Metadata.{HistoryEventKind, added, removed, modified}

pub record EventFilter : Type 0 where
  pub show_added : Bool
  pub show_removed : Bool
  pub show_modified : Bool
  pub filter_specified : Bool

abbrev pub new_filter : EventFilter
new_filter = record {
  show_added = true;
  show_removed = true;
  show_modified = true;
  filter_specified = false;
}

-- The first call switches all kinds off.
unfoldable pub specify : EventFilter → EventFilter
specify filter =
    if not filter.filter_specified
    then record {
      show_added = false;
      show_removed = false;
      show_modified = false;
      filter_specified = true;
    }
    else filter

-- The `switch` of `enable`.
unfoldable pub show : EventFilter → HistoryEventKind → EventFilter
show filter added = record filter { show_added = true }
show filter removed = record filter { show_removed = true }
show filter modified = record filter { show_modified = true }
show filter _ = filter

unfoldable pub enable : EventFilter → HistoryEventKind → EventFilter
enable filter kind = show (specify filter) kind

unfoldable pub accepts : EventFilter → HistoryEventKind → Bool
accepts filter added = filter.show_added
accepts filter removed = filter.show_removed
accepts filter modified = filter.show_modified
accepts filter _ = true

-- The options of a command line, in order.
pub enable_all : EventFilter → List HistoryEventKind → EventFilter
enable_all filter [] = filter
enable_all filter (kind ∷ kinds) = enable_all (enable filter kind) kinds

-- Whether a kind is asked for; run markers and unknown kinds are always shown.
unfoldable pub asked : HistoryEventKind → HistoryEventKind → Bool
asked added added = true
asked removed removed = true
asked modified modified = true
asked _ _ = false

unfoldable pub always : HistoryEventKind → Bool
always added = false
always removed = false
always modified = false
always _ = true

unfoldable pub any_asked : HistoryEventKind → List HistoryEventKind → Bool
any_asked kind [] = false
any_asked kind (k ∷ kinds) = asked k kind || any_asked kind kinds

accepts-enable :
    (filter : EventFilter) (k kind : HistoryEventKind)
    → filter.filter_specified ≡ true
    → accepts (enable filter k) kind ≡ (accepts filter kind || asked k kind)
unfolding accepts enable show specify asked
accepts-enable filter k kind h = ground (arith, h)

specified-enable :
    (filter : EventFilter) (k : HistoryEventKind) → (enable filter k).filter_specified ≡ true
unfolding enable show specify
specified-enable filter k = ground arith

accepts-specified :
    (filter : EventFilter) (kinds : List HistoryEventKind) (kind : HistoryEventKind)
    → filter.filter_specified ≡ true
    → accepts (enable_all filter kinds) kind ≡ (accepts filter kind || any_asked kind kinds)
unfolding enable_all any_asked
accepts-specified filter [] kind h = ground arith
accepts-specified filter (k ∷ kinds) kind h = ground (
  arith,
  accepts-specified (enable filter k) kinds kind (specified-enable filter k),
  accepts-enable filter k kind h,
)

accepts-first :
    (k kind : HistoryEventKind) → accepts (enable new_filter k) kind ≡ (always kind || asked k kind)
unfolding accepts enable show specify asked always
accepts-first k kind = ground arith

accepts-new : (kind : HistoryEventKind) → accepts new_filter kind ≡ true
unfolding accepts
accepts-new kind = ground arith

-- After any options, in any order, a filter accepts the kinds that were asked for, and the kinds that
-- no option selects; without an option it accepts every kind.
pub accepts-enable_all :
    (kinds : List HistoryEventKind) (kind : HistoryEventKind)
    → accepts (enable_all new_filter kinds) kind
      ≡ (if is_empty kinds then true else always kind || any_asked kind kinds)
unfolding enable_all any_asked
accepts-enable_all [] kind = accepts-new kind
accepts-enable_all (k ∷ kinds) kind = ground (
  arith,
  accepts-specified (enable new_filter k) kinds kind (specified-enable new_filter k),
  accepts-first k kind,
)
