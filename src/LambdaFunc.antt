-- ===== src/LambdaFunc.antt =====
-- go/worker/lambda/lambdaFunction.go: the code of one lambda function and the task that serves it.
-- A code directory is known by a number, and `none` is the empty string. Times are nanoseconds of a
-- clock that does not run backwards.
pub mod Pull
pub mod Refresh
pub mod Task
pub mod Scaling
pub mod Settling
pub mod Serving
pub mod Codes
pub mod Retiring
mod Tests
