-- ===== src/Section/Dicts/FromList.antt =====
-- The dictionary that a section with a list makes.
use super_smack.Dictionary.{Dictionary}
