-- ===== src/Parser/Ast.antt =====
-- crates/parser/src/ast.rs: the syntax tree.
-- The twenty variants of `ExprKind` that hold two operands and nothing else (`Apply(a, b)`,
-- `Pipe(a, b)`, … `Lens(a, b)`) are `binary op a b`, with `op` the variant's name. A `Vec` of
-- expressions, fields or string parts inside the tree is a list of the mutual block, and an
-- `f64` stands as its 64 bits.
use nlang_tools.Prelude.{ℕ, String, Bool, List, Option}

pub record Span : Type 0 where
  pub start : ℕ
  pub end : ℕ

-- `Prefix::Data` is `plain`.
pub data Prefix : Type 0 where
  plain private logic type meta system local : Prefix

pub data AddressAlgo : Type 0 where
  sha256 : AddressAlgo

pub data PathAnchor : Type 0 where
  root current : PathAnchor
  parent : ℕ → PathAnchor
  bare : PathAnchor
  address : AddressAlgo → List ℕ → PathAnchor

pub record AstPath : Type 0 where
  pub anchor : PathAnchor
  pub segments : List String
  pub span : Span

-- `negsuc n` is -(n + 1).
pub data ℤ : Type 0 where
  pos negsuc : ℕ → ℤ

pub data AtomKind : Type 0 where
  int : ℤ → AtomKind
  float : ℕ → AtomKind
  complex : ℕ → ℕ → AtomKind
  str multiline_str tag : String → AtomKind
  tag_start tag_end : AtomKind
  regex : String → AtomKind
  top bottom unit : AtomKind
  path_lit : String → AtomKind
  bytes : List ℕ → AtomKind
  uri time : String → AtomKind

pub data RelOp : Type 0 where
  lt gt lte gte eq : RelOp

pub record Relation : Type 0 where
  pub left : AtomKind
  pub op : RelOp
  pub right : AtomKind
  pub span : Span

pub data UnaryOp : Type 0 where
  negation neg : UnaryOp

pub data BinaryOp : Type 0 where
  apply pipe meet join diff add sub mul div rem : BinaryOp
  eq ne lt gt lte gte lattice_eq probe : BinaryOp
  type_annotation lens : BinaryOp

mutual
  pub data Expr : Type 0 where
    node : ExprKind → Span → Expr

  pub data ExprKind : Type 0 where
    atom : AtomKind → ExprKind
    path : AstPath → ExprKind
    binary : BinaryOp → Expr → Expr → ExprKind
    morphism : Expr → Expr → ExprKind
    combo : Fields → List Relation → Bool → ExprKind
    complement : Expr → ExprKind
    ternary : Expr → Expr → Expr → ExprKind
    unary : UnaryOp → Expr → ExprKind
    list tuple : Exprs → ExprKind
    poset : List Relation → ExprKind
    anon_set : Expr → ExprKind
    interpolated : Parts → ExprKind
    range : Expr → Expr → RangeStep → ExprKind
    context : ExprKind
    spread structural : Expr → ExprKind

  pub data Exprs : Type 0 where
    no_exprs : Exprs
    and_expr : Expr → Exprs → Exprs

  pub data RangeStep : Type 0 where
    no_step : RangeStep
    step : Expr → RangeStep

  pub data Parts : Type 0 where
    no_parts : Parts
    and_part : StringPart → Parts → Parts

  pub data StringPart : Type 0 where
    literal : String → StringPart
    interpolation : Expr → StringPart

  pub data Fields : Type 0 where
    no_fields : Fields
    and_field : Field → Fields → Fields

  pub data Field : Type 0 where
    field : FieldKey → Expr → Span → Field

  pub data FieldKey : Type 0 where
    named : Option Prefix → String → FieldKey
    quoted : String → FieldKey
    pattern_key : Expr → FieldKey
    path_key : AstPath → FieldKey

pub record Program : Type 0 where
  pub fields : Fields

abbrev pub kind : Expr → ExprKind
kind (node k s) = k

abbrev pub span_of : Expr → Span
span_of (node k s) = s
