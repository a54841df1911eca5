-- ===== src/Endpoint/Choosing.antt =====
-- When a subscriber has no decoder to take.
use faststream.Prelude.{
  ◌≡◌, refl, ◌∙◌, Bool, true, false, ◌&&◌, ◌||◌, Option, none, some, [], ◌∷◌, arith,
}
use faststream.Exceptions.{Result, ok, err}
use faststream.Endpoint.{
  Custom, Codec, Resolution, first_given, decoder_of, paired, get_parser_and_decoder,
}

abbrev pub is_given : {A : Type 0} → Option A → Bool
is_given none = false
is_given (some a) = true

abbrev pub raises : {A : Type 0} → Result A → Bool
raises (ok a) = false
raises (err e) = true

module _ {F : Type 0} where
  -- A codec that cannot decode a batch.
  abbrev pub is_single : Option (Codec F) → Bool
  is_single none = false
  is_single (some c) = elim c.decode_batch [ none ↦ true | some f ↦ false ]

  decoder_of-raises :
      (default_func : F) (is_batch : Bool) (codec : Option (Codec F)) (decoder : Option (Custom F))
      → raises (decoder_of default_func is_batch codec decoder)
        ≡ (is_given codec && (is_given decoder || (is_batch && is_single codec)))
  unfolding decoder_of
  decoder_of-raises default_func is_batch none decoder = refl
  decoder_of-raises default_func is_batch (some c) (some d) = refl
  decoder_of-raises default_func false (some c) none = refl
  decoder_of-raises default_func true (some c) none = ground arith

  raises-paired : (p : F) (r : Result F) → raises (paired p r) ≡ raises r
  raises-paired p (ok d) = refl
  raises-paired p (err e) = refl

  -- A subscriber fails to set up its handlers exactly if both a codec and a decoder are given,
  -- wherever they are, or the codec cannot decode the batches that it gets.
  pub get_parser_and_decoder-raises :
      (r : Resolution F)
      → let codec = first_given (r.call_codec ∷ r.broker_codec ∷ []) in
        let decoder = first_given (r.item_decoder ∷ r.call_decoder ∷ r.broker_decoder ∷ []) in
        raises (get_parser_and_decoder r)
        ≡ (is_given codec && (is_given decoder || (r.is_batch && is_single codec)))
  unfolding get_parser_and_decoder
  get_parser_and_decoder-raises r =
      let codec = first_given (r.call_codec ∷ r.broker_codec ∷ []) in
      let decoder = first_given (r.item_decoder ∷ r.call_decoder ∷ r.broker_decoder ∷ []) in
      raises-paired _ (decoder_of r.decoder r.is_batch codec decoder)
      ∙ decoder_of-raises r.decoder r.is_batch codec decoder
