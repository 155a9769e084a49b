-- ===== src/Tests/Storage.antt =====
-- The theorem on uploads at a world in which two attempts fail.
use ffgif.Base.{ltb, none, some, codes, if◌then◌else◌}
use ffgif.World.{World}
use ffgif.Storage
use ffgif.Storage.Upload
use ffgif.Tests.Sample.{calm}

abbrev shaky : World
shaky = record calm { outage = λ n. if ltb n 2 then some n else none }

upload-Uploads_example : Upload.Uploads (codes "dog") shaky (Storage.upload (codes "dog") shaky)
upload-Uploads_example = Upload.upload-Uploads (codes "dog") shaky
