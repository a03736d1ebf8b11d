-- ===== src/Text.antt =====
-- What patterns with stars mean, independently of the two functions of the repository that match
-- them: `WildcardMatch` of src/files.c and `MatchPattern` of CBuilder.c.
pub mod Glob
