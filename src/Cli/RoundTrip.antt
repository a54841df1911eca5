-- ===== src/Cli/RoundTrip.antt =====
-- Options that are written to a command line and read from it.
use faststream.Prelude.{
  ◌≡◌, refl, ap, ◌∙◌, sym, true, false, List, [], ◌∷◌, ◌++◌, All, append_assoc, append-nil,
}
use faststream.Text.{Text, same_text, split}
use faststream.Codec.{startswith}
use faststream.Cli.{
  dash, equals, is_bind_arg, has_colon, Setting, ExtraKwargs, name_of, key_of, value_of,
  put_setting, Parser, put_option, read_item, read_items, items_of, empty_parser, parse_cli_args,
}
use faststream.Cli.Names.{
  NoEquals, IsName, IsValue, Given, on, off, values, name, given_values, written, setting, printed,
  settings, IsGiven, Distinct, plain_equals, plain_colon, key-written, value-written,
}

put_setting-new :
    (key : Text) (v : Setting) (before : ExtraKwargs)
    → All (λ (e : Text × Setting). same_text e.0 key ≡ false) before
    → put_setting key v before ≡ before ++ (key, v) ∷ []
unfolding put_setting
put_setting-new key v [] a = refl
put_setting-new key v ((k, s) ∷ before) (other, a) =
    let rest = put_setting-new key v before a in rw (put_setting, other, rest)

written-colon : (o : Given) → IsName (name o) → has_colon (written o) ≡ false
written-colon (on n) g = plain_colon n g.plain
written-colon (values n v vs) g = plain_colon n g.plain
written-colon (off n) g = plain_colon n g.plain

written-equals : (o : Given) → IsName (name o) → NoEquals (written o)
written-equals (on n) g = (refl, (refl, plain_equals n g.plain))
written-equals (values n v vs) g = (refl, (refl, plain_equals n g.plain))
written-equals (off n) g = (refl, (refl, (refl, (refl, (refl, plain_equals n g.plain)))))

written-dash : (o : Given) → startswith (written o) (dash ∷ []) ≡ true
unfolding startswith
written-dash (on n) = refl
written-dash (off n) = refl
written-dash (values n v vs) = refl

read_written :
    (o : Given) (p : Parser)
    → IsName (name o)
    → read_item (written o) p ≡ record (put_option p.k p) { k = written o }
unfolding read_item
read_written o p g = rw (written-colon o g, written-dash o)

read_value :
    (v : Text) (p : Parser)
    → IsValue v
    → read_item v p ≡ record p { field_args = p.field_args ++ v ∷ [] }
unfolding read_item
read_value v p i = rw (i.no_colon, i.no_dash)

read_values :
    (vs rest : List Text) (p : Parser)
    → All IsValue vs
    → read_items (vs ++ rest) p ≡ read_items rest (record p { field_args = p.field_args ++ vs })
unfolding read_items
read_values [] rest p a = rw (append-nil p.field_args)
read_values (v ∷ vs) rest p (i, a) =
    rw (read_items, read_value v p i)
      (read_values vs rest (record p { field_args = p.field_args ++ v ∷ [] }) a
        ∙ rw (append_assoc p.field_args (v ∷ []) vs))

put_written :
    (o : Given) (p : Parser)
    → put_option (written o) p ≡ record p {
      field_args = [];
      extra_kwargs =
          put_setting
            (key_of (name_of (written o)))
            (value_of (name_of (written o)) p.field_args)
            p.extra_kwargs;
    }
put_written (on n) p = refl
put_written (off n) p = refl
put_written (values n v vs) p = refl

put_option_app : (k : Text) (p : Parser) → (put_option k p).app ≡ p.app
put_option_app [] p = refl
put_option_app (c ∷ k) p = refl

-- An option that was read is put when the next one comes.
put_next :
    (o : Given) (field_args : List Text) (extra_kwargs before : ExtraKwargs)
    → IsName (name o)
    → field_args ≡ []
    → extra_kwargs ≡ before
    → All (λ (e : Text × Setting). same_text e.0 (name o) ≡ false) before
    → put_setting
        (key_of (name_of (written o)))
        (value_of (name_of (written o)) (field_args ++ given_values o))
        extra_kwargs
      ≡ before ++ (name o, setting o) ∷ []
put_next o field_args extra_kwargs before g e f new =
    rw (e, f, key-written o g, value-written o g) (put_setting-new (name o) (setting o) before new)

abbrev end : List Text
end = (dash ∷ []) ∷ []

record Gathered (options : List Given) (p : Parser) (before : ExtraKwargs) (q : Parser)
    : Type 0 where
  app : q.app ≡ p.app
  extra_kwargs : q.extra_kwargs ≡ before ++ settings options

options_read :
    (options : List Given) (p : Parser) (before : ExtraKwargs)
    → All IsGiven options
    → (put_option p.k p).field_args ≡ []
    → (put_option p.k p).extra_kwargs ≡ before
    → Distinct before options
    → Gathered options p before (read_items (printed options ++ end) p)
unfolding read_items read_item startswith
options_read [] p before g e f d = record {
  app = put_option_app p.k p;
  extra_kwargs = f ∙ sym (append-nil before);
}
options_read (o ∷ options) p before ((named, valued), g) e f (new, d) =
    let r : Parser = record (put_option p.k p) { k = written o } in
    let next : Parser = record r { field_args = r.field_args ++ given_values o } in
    let put = put_next o r.field_args r.extra_kwargs before named e f new in
    let as_put = put_written o next in
    let rest =
      options_read options next (before ++ (name o, setting o) ∷ []) g
        (ap (λ (x : Parser). x.field_args) as_put)
        (ap (λ (x : Parser). x.extra_kwargs) as_put ∙ put) d in
    let reached : read_items (printed (o ∷ options) ++ end) p
        ≡ read_items (printed options ++ end) next =
      ap (λ (x : Parser). read_items (given_values o ++ printed options ++ end) x)
        (read_written o p named)
      ∙ ap (λ (items : List Text). read_items items r)
          (append_assoc (given_values o) (printed options) end)
      ∙ read_values (given_values o) (printed options ++ end) r valued in
    record {
      app = ap (λ (x : Parser). x.app) reached ∙ rest.app ∙ put_option_app p.k p;
      extra_kwargs =
          ap (λ (x : Parser). x.extra_kwargs) reached
          ∙ rest.extra_kwargs
          ∙ append_assoc before ((name o, setting o) ∷ []) (settings options);
    }

unsplit : (t : Text) → NoEquals t → split equals t ≡ t ∷ []
unfolding split
unsplit [] a = refl
unsplit (c ∷ t) (p, a) = let rest = unsplit t a in rw (split, p, rest)

items_of-NoEquals : (args : List Text) → All NoEquals args → items_of args ≡ args
unfolding items_of
items_of-NoEquals [] a = refl
items_of-NoEquals (t ∷ args) (n, a) =
    let rest = items_of-NoEquals args a in rw (items_of, unsplit t n, rest)

All-values :
    (vs : List Text) (rest : List Text)
    → All IsValue vs
    → All NoEquals rest
    → All NoEquals (vs ++ rest)
All-values [] rest a b = b
All-values (v ∷ vs) rest (i, a) b = (i.no_equals, All-values vs rest a b)

printed-NoEquals : (options : List Given) → All IsGiven options → All NoEquals (printed options)
printed-NoEquals [] g = tt
printed-NoEquals (o ∷ options) ((named, valued), g) = (
  written-equals o named,
  All-values (given_values o) (printed options) valued (printed-NoEquals options g),
)

read_app :
    (app : Text)
    → has_colon app ≡ true
    → is_bind_arg app ≡ false
    → read_item app empty_parser ≡ record empty_parser { app = app }
unfolding read_item
read_app app colons no_bind = rw (colons, no_bind)

-- The path of an application and options of different names are read from the command line as they
-- were written: `--name` as true, `--no-name` as false, a name with one value as that text, and one
-- with more as their list, in the order in which they stand. So it is where the path has a colon and
-- no equals sign and is no address to bind, where no name has a dash, a colon, an equals sign or a
-- space or begins with "no_", and where no value has a colon or an equals sign or begins with a dash.
pub parse_cli_args-printed :
    (app : Text) (options : List Given)
    → has_colon app ≡ true
    → is_bind_arg app ≡ false
    → NoEquals app
    → All IsGiven options
    → Distinct [] options
    → parse_cli_args (app ∷ printed options) ≡ (app, settings options)
unfolding parse_cli_args
parse_cli_args-printed app options colons no_bind no_equals g d =
    let start : Parser = record empty_parser { app = app } in
    let items = items_of-NoEquals (app ∷ printed options) (no_equals, printed-NoEquals options g) in
    let first : read_item app empty_parser ≡ start = read_app app colons no_bind in
    let r = options_read options start [] g refl refl d in
    rw (items, read_items, first)
      (ap (λ (x : Text). (x, (read_items (printed options ++ end) start).extra_kwargs)) r.app
        ∙ ap (λ (x : ExtraKwargs). (app, x)) r.extra_kwargs)
