-- ===== src/Lib.antt =====
-- The O3D client library (scalajs/o3d/src/main/javascript), modelled and verified in part.
--
-- The program is a retained-mode 3D library in JavaScript. o3d-webgl holds its objects over WebGL,
-- o3djs the utilities that a page uses. The paths below go on from that folder.
--
-- Base: the names shared by all modules; Base/Int the integers, Base/Arrays `removeFromArray` of
-- o3d-webgl/base.js.
--
-- Counter (o3d-webgl/counter.js): Counter/Callbacks has `addCallback`, `removeCallback`,
-- `removeAllCallbacks` and `callCallbacks_` over the sorted callback list; Counter/Advance has
-- `setCount`, `reset` and `advance`, with one definition for the mirrored branches of each switch;
-- Counter/Manager has the `CounterManager` and the setters of `running` and `gl`. A counter reads
-- its callbacks through `callCallbacks_` only, and the manager its counters through `advance`.
-- Numbers of the source are integers here and the arithmetic is exact, so rounding is not
-- modelled. The loops CYCLE and OSCILLATE take fuel. Each round but the last covers a period, which
-- is at least 1 where start and end differ, so the fuel that is enough depends on |delta| and on
-- where the count stands: Counter/Advance/Modes asks for |delta| + 1 rounds and a count between the
-- bounds (in CYCLE not at the one ahead), Counter/Advance/Returns for |delta| + 2 rounds and a count
-- between the bounds, both included. A count outside the bounds may need more. The functions that a
-- counter calls are known by numbers; what they do to the world is a parameter of the manager.
--
-- Curve (o3d-webgl/curve.js): Curve/Keys has `createKey`, the functions that add keys and
-- `updateCurveInfo_`; Curve/Search has `getOutputInSpan_`; Curve/Evaluate has `evaluate`. Inputs are
-- integers, outputs any numbers with their operations, and the output of Bezier keys is a
-- parameter. The bisection has the number of keys plus 2 as its fuel, which is enough since each
-- round shortens the range. Curve/Jumps has `isDiscontinuous`, Curve/Edits has the setters and `destroy`
-- of keys, in the array or taken out of it before, Curve/FunctionEval
-- `updateOutputs` of o3d-webgl/function.js.
--
-- Buffer (o3d-webgl/buffer.js and field.js): Buffer.antt has the operations of buffers and fields,
-- Buffer/Loops the counting loops, Buffer/Layout the offsets of the fields, Buffer/Cells and
-- Buffer/Fields `getAt` and `setAt`, Buffer/Saved, Buffer/Restored and Buffer/Created
-- `createField`. The typed array is a parameter: its filler and its conversion of stored values,
-- with the law that a stored value is stored again as it is. A field with no components divides by 0 in the source; the
-- theorems ask for one component or more where it matters.
--
-- Events (o3djs/event.js, and `setEventCallback` and `clearEventCallback` of o3d-webgl/client.js):
-- Events.antt has `addEventListener`, `removeEventListener` and what `createEventHandler` calls, over
-- a store of arrays of listeners that the registry and the client's callbacks share by address;
-- Events/Wired has the invariant of that sharing. The listeners of the DOM are those that the client
-- adds, in order; the DOM throws where its `removeEventListener` gets no listener.
--
-- Loader (o3djs/loader.js): Loader.antt has the countdown of a loader and the steps of its loads and
-- of `finish`, as a step relation; Loader/Runs has its runs. How a load proceeds is not modelled.
--
-- Ring: the numbers of the parts below, taken as exact: a commutative ring, with division, square
-- root, sine, cosine, tangent and pi as parameters. Ring/Expressions and Ring/Solver decide
-- equations between polynomials: the code is run on formal expressions, and two results with the same
-- sorted products are equal in every ring. Ring/Integers and Ring/Residues are numbers to run on.
--
-- Math (o3djs/math.js): Math.antt has arrays of two to four entries. Math/Loops, Math/Vectors and
-- Math/Matrices have the functions on arrays of any length, with a parameter for what a read outside
-- an array gives (a missing row reads as an empty one), Math/Cofactors `codet`, `det` and `inverse`; as many nested expansions as rows
-- are enough for `det`. Math/RowMajor, Math/ColumnMajor, Math/Determinants and Math/Inverses have the
-- unrolled functions, Math/Compose, Math/Points, Math/Motions, Math/Rotations, Math/Turns and
-- Math/Views the functions of `matrix4`. A function that changes a matrix gives its new value;
-- matrices do not share rows. Math/Symbolic runs the code on expressions, the other
-- modules compare the functions.
--
-- Quaternions (o3djs/quaternions.js): Quaternions.antt has the operations, Quaternions/Dispatch those
-- chosen by `mathType`, Quaternions/Conversion `rotationToQuaternion`.
--
-- Transform (o3d-webgl/transform.js): Transform/Matrices and Transform/Local have the matrix code,
-- Transform/Tree the setter of `parent`, the lists of children and shapes and `getTransformsInTree`
-- over a heap of transforms known by numbers, Transform/World `getUpdatedWorldMatrix`. The
-- recursive functions take the depth of their calls.
--
-- BoundingBox (o3d-webgl/bounding_box.js): boxes with `fitBoxToPoints_`, `add`, `mul` and
-- `inFrustum`, over numbers with a test for less; BoundingBox/Fitted and BoundingBox/Frustum have
-- their proofs.
--
-- Drawing: Drawing.antt has `writeToDrawLists` of o3d-webgl/shape.js, Drawing/Traverse `traverse` of
-- o3d-webgl/transform.js with its culling, and the tree traversal of o3d-webgl/tree_traversal.js, which
-- resets its draw lists and traverses from its root. All objects are known by numbers; the draw
-- lists, the counts of what was drawn and the transforms are the state. Drawing/Grows says what a
-- step adds to the lists, Drawing/Drawn what is to be drawn. The depth of calls is the fuel; a depth
-- above the height of the tree is enough.
--
-- Not modelled: the calls of WebGL and its state, the loading of files, the sorting of draw lists, params, and the parts
-- of o3djs that only arrange calls of these.
pub mod Base
pub mod Counter
pub mod Curve
pub mod Buffer
pub mod Events
pub mod Loader
pub mod Ring
pub mod Math
pub mod Quaternions
pub mod Transform
pub mod BoundingBox
pub mod Drawing
